-- ===== src/Vuln/Cpe/Safe.antt =====
-- The identifiers that src/vuln/cpe.cpp synthesizes.
use bomwerk.Prelude.{
  ℕ, ◌+◌, ◌<◌, ◌≤◌, ◌≡◌, refl, sym, ap, ◌∙◌, true, false, ◌||◌, Option, none, some, [], ◌∷◌, ◌++◌,
  arith, Bytes, codes, length, all_of, is_empty, ltb, ◌==◌, ◌↔◌, subst, if_some, unless_some,
  append_assoc, if◌then◌else◌, Option-cases, inl, inr,
}
use mathlib.Core.Option.{some-injective}
use bomwerk.Core.Text.{to_lower_ascii}
use bomwerk.Core.Purl.{purl_identity_part, purl_name_of, purl_version_of}
use bomwerk.Vuln.Cpe.{
  max_cpe_segment_bytes, is_safe_cpe_character, validated_segment, cpe_application_prefix,
  any_vendor, remaining_wildcard_attributes, match_string, cpe_match_string_for, cpe_identifier_for,
}

-- A segment that needs no escaping in a CPE: from 1 to 128 bytes, all of them safe.
abbrev pub IsCpeSegment : Bytes → Type 0
IsCpeSegment s = (0 < length s) × (length s ≤ 128) × (all_of is_safe_cpe_character s ≡ true)

length-to_lower_ascii : (s : Bytes) → length (to_lower_ascii s) ≡ length s
unfolding to_lower_ascii
length-to_lower_ascii [] = refl
length-to_lower_ascii (c ∷ s) = omega (arith, length-to_lower_ascii s)

is_empty_lem : (s : Bytes) → is_empty s ≡ false → 0 < length s
is_empty_lem [] h = cc
is_empty_lem (c ∷ s) h = omega arith

bounded_size :
    (s : Bytes)
    → (is_empty s || ltb max_cpe_segment_bytes (length s)) ≡ false
    → (0 < length s) × (length s ≤ 128)
bounded_size [] h = cc
bounded_size (c ∷ s) h = (omega arith, ground arith)

long_enough :
    (s : Bytes)
    → 0 < length s
    → length s ≤ 128
    → (is_empty s || ltb max_cpe_segment_bytes (length s)) ≡ false
long_enough [] h k = absurd (omega arith)
long_enough (c ∷ s) h k = ground arith

sized :
    (s t : Bytes)
    → t ≡ to_lower_ascii s
    → 0 < length t
    → length t ≤ 128
    → (0 < length s) × (length s ≤ 128)
sized s t same h k =
    let e : length t ≡ length s = ap length same ∙ length-to_lower_ascii s in
    (omega arith, omega arith)

validated_segment_sound :
    (s t : Bytes) → validated_segment s ≡ some t → (t ≡ to_lower_ascii s) × IsCpeSegment t
unfolding validated_segment
validated_segment_sound s t h =
    let (short, k) =
      unless_some (is_empty s || ltb max_cpe_segment_bytes (length s))
        (if all_of is_safe_cpe_character (to_lower_ascii s) then some (to_lower_ascii s) else none)
        t h in
    let (safe, same) = if_some _ (to_lower_ascii s) t k in
    let size : (0 < length s) × (length s ≤ 128) = bounded_size s short in
    subst (λ u. (u ≡ to_lower_ascii s) × IsCpeSegment u) same
      (refl, (omega (arith, length-to_lower_ascii s), omega (arith, length-to_lower_ascii s), safe))

-- A segment is accepted when its lower case is a segment that needs no escaping, and then that is
-- the result.
pub validated_segment_iff :
    (s t : Bytes) → (validated_segment s ≡ some t) ↔ ((t ≡ to_lower_ascii s) × IsCpeSegment t)
unfolding validated_segment
validated_segment_iff s t = (
  validated_segment_sound s t,
  λ (same, (least, most, safe)).
      let size : (0 < length s) × (length s ≤ 128) = sized s t same least most in
      rw (long_enough s size.0 size.1, sym same, safe) refl,
)

match_string_sound :
    (p v : Option Bytes) (id : Bytes)
    → match_string p v ≡ some id
    → (product : Bytes) × (version : Bytes) × (p ≡ some product)
      × (v ≡ some version)
      × (cpe_application_prefix ++ (any_vendor ++ b':' ∷ (product ++ b':' ∷ version)) ≡ id)
unfolding match_string
match_string_sound none v id h = cc
match_string_sound (some product) none id h = cc
match_string_sound (some product) (some version) id h =
    (product, version, refl, refl, some-injective _ id h)

-- what stands around the two segments
abbrev pub cpe_text : Bytes → Bytes → Bytes
cpe_text product version =
    codes "cpe:2.3:a:*:" ++ (product ++ b':' ∷ (version ++ codes ":*:*:*:*:*:*:*"))

-- the number of colons
pub colons : Bytes → ℕ
colons [] = 0
colons (c ∷ s) = (if c == b':' then 1 else 0) + colons s

colons-append : (s t : Bytes) → colons (s ++ t) ≡ colons s + colons t
unfolding colons
colons-append [] t = omega arith
colons-append (c ∷ s) t = omega (arith, colons-append s t)

colons_safe : (s : Bytes) → all_of is_safe_cpe_character s ≡ true → colons s ≡ 0
unfolding colons
colons_safe [] h = refl
colons_safe (c ∷ s) h = ground (arith, colons_safe s)

cpe_text_lem :
    (product version : Bytes)
    → (cpe_application_prefix ++ (any_vendor ++ b':' ∷ (product ++ b':' ∷ version)))
        ++ remaining_wildcard_attributes
      ≡ cpe_text product version
cpe_text_lem product version =
    ap (λ t. codes "cpe:2.3:a:*:" ++ t)
      (append_assoc product (b':' ∷ version) remaining_wildcard_attributes)

colons-cpe_text :
    (product version : Bytes)
    → all_of is_safe_cpe_character product ≡ true
    → all_of is_safe_cpe_character version ≡ true
    → colons (cpe_text product version) ≡ 12
unfolding colons
colons-cpe_text product version h k = omega (
  arith,
  colons-append product (b':' ∷ (version ++ codes ":*:*:*:*:*:*:*")),
  colons-append version (codes ":*:*:*:*:*:*:*"),
  colons_safe product h,
  colons_safe version k,
)

cpe_match_string_for_sound :
    (purl id : Bytes)
    → cpe_match_string_for purl ≡ some id
    → match_string
        (validated_segment (purl_name_of (purl_identity_part purl)))
        (validated_segment (purl_version_of (purl_identity_part purl)))
      ≡ some id
unfolding cpe_match_string_for
cpe_match_string_for_sound purl id h = (unless_some _ _ id h).1

same_identifier :
    (purl found : Bytes)
    → cpe_match_string_for purl ≡ some found
    → some (found ++ remaining_wildcard_attributes) ≡ cpe_identifier_for purl
unfolding cpe_identifier_for
same_identifier purl found e = rw (e, cpe_identifier_for) refl

pub cpe_identifier_for_lem :
    (purl id : Bytes)
    → cpe_identifier_for purl ≡ some id
    → (product : Bytes) × (version : Bytes) × (product
        ≡ to_lower_ascii (purl_name_of (purl_identity_part purl)))
      × (version ≡ to_lower_ascii (purl_version_of (purl_identity_part purl)))
      × IsCpeSegment product
      × IsCpeSegment version
      × (id ≡ cpe_text product version)
      × (colons id ≡ 12)
unfolding cpe_identifier_for
cpe_identifier_for_lem purl id h = elim (Option-cases (cpe_match_string_for purl)) [
  | inl e ↦
      let nothing : none ≡ cpe_identifier_for purl = rw (e, cpe_identifier_for) refl in
      cc (nothing ∙ h)
  | inr (found, e) ↦
      let full : some (found ++ remaining_wildcard_attributes) ≡ some id =
        same_identifier purl found e ∙ h in
      let (product, version, hp, hv, text) =
        match_string_sound _ _ found (cpe_match_string_for_sound purl found e) in
      let (product_text, (pl, pm, ps)) = validated_segment_sound _ product hp in
      let (version_text, (vl, vm, vs)) = validated_segment_sound _ version hv in
      let shape : id ≡ cpe_text product version =
        sym (some-injective _ id full)
        ∙ ap (λ t. t ++ remaining_wildcard_attributes) (sym text)
        ∙ cpe_text_lem product version in
      (
        product,
        version,
        product_text,
        version_text,
        (pl, pm, ps),
        (vl, vm, vs),
        shape,
        ap colons shape ∙ colons-cpe_text product version ps vs,
      )
]
