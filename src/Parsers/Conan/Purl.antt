-- ===== src/Parsers/Conan/Purl.antt =====
-- `build_conan_purl` of src/parsers/cpp/conan_ref.cpp, read by `Purl::parse` of src/core/purl.cpp.
use bomwerk.Prelude.{
  ℕ, ◌-◌, ◌≡◌, ◌≢◌, refl, Bool, true, false, [], ◌∷◌, ◌++◌, Bytes, All-append, All-take,
  Fails-all_of, codes, is_empty, length, take, if◌then◌else◌, Bool-cases, inl, inr,
}
use bomwerk.Core.Text.{to_lower_ascii, to_lower_ascii_char}
use bomwerk.Core.Percent.{is_unreserved, encoded_char, percent_encode}
use bomwerk.Core.Purl.{is_purl_whitespace, parse}
use bomwerk.Core.Purl.Parse.Shape.{NoSpace, is_slash}
use bomwerk.Core.Purl.Parse.Accept.{accepted}
use bomwerk.Core.Purl.Encoded.{
  IsType, percent_encode-NoSpace, parse-IsType, append-front, version-NoSpace,
}
use bomwerk.Parsers.Conan.{ConanReference, qualifier, qualifiers_of, build_conan_purl}

conan-IsType : IsType (codes "conan")
unfolding to_lower_ascii to_lower_ascii_char
conan-IsType = record {
  solid = Fails-all_of is_purl_whitespace (codes "conan") refl;
  whole = Fails-all_of is_slash (codes "conan") refl;
  lower = refl;
}

encoded_some : (c : ℕ) (s : Bytes) → encoded_char c ++ s ≢ []
unfolding encoded_char
encoded_some c s = elim (Bool-cases (is_unreserved c)) [
  | inl e ↦ rw (encoded_char, e) (λ h. cc)
  | inr e ↦ rw (encoded_char, e) (λ h. cc)
]

percent_encode_some : (s : Bytes) → is_empty s ≡ false → percent_encode s ≢ []
unfolding percent_encode
percent_encode_some [] h = cc
percent_encode_some (c ∷ s) h = encoded_some c (percent_encode s)

abbrev name_of : Bytes → Bytes
name_of name = if is_empty name then codes "unknown" else name

name_some : (name : Bytes) → is_empty (name_of name) ≡ false
name_some [] = refl
name_some (c ∷ s) = refl

qualifier-NoSpace : (key value : Bytes) → NoSpace key → NoSpace (qualifier key value)
qualifier-NoSpace key [] h = tt
qualifier-NoSpace key (c ∷ s) h =
    All-append _ key (b'=' ∷ (percent_encode (c ∷ s) ++ b'&' ∷ [])) h (
      refl,
      All-append _ (percent_encode (c ∷ s)) (b'&' ∷ []) (percent_encode-NoSpace (c ∷ s)) (refl, tt),
    )

revision-NoSpace :
    (include : Bool) (revision : Bytes)
    → NoSpace (if include then qualifier (codes "rrev") revision else [])
revision-NoSpace true revision =
    qualifier-NoSpace (codes "rrev") revision (Fails-all_of is_purl_whitespace (codes "rrev") refl)
revision-NoSpace false revision = tt

qualifiers_of-NoSpace :
    (reference : ConanReference) (include : Bool) → NoSpace (qualifiers_of reference include)
qualifiers_of-NoSpace reference include =
    All-append _ (qualifier (codes "channel") reference.channel) _
      (qualifier-NoSpace (codes "channel") reference.channel
        (Fails-all_of is_purl_whitespace (codes "channel") refl))
      (All-append _ (if include then qualifier (codes "rrev") reference.revision else []) _
        (revision-NoSpace include reference.revision)
        (qualifier-NoSpace (codes "user") reference.user
          (Fails-all_of is_purl_whitespace (codes "user") refl)))

abbrev extras_of : Bytes → Bytes
extras_of qualifiers =
    if is_empty qualifiers then [] else b'?' ∷ take (length qualifiers - 1) qualifiers

extras_of-NoSpace : (qualifiers : Bytes) → NoSpace qualifiers → NoSpace (extras_of qualifiers)
extras_of-NoSpace [] h = tt
extras_of-NoSpace (c ∷ s) h = (refl, All-take _ (length (c ∷ s) - 1) (c ∷ s) h)

-- The purl of a reference is accepted without a warning and is its own canonical form, whatever the
-- fields hold and whether or not the recipe revision is in it.
pub parse-build_conan_purl :
    (reference : ConanReference) (include_recipe_revision : Bool)
    → parse (build_conan_purl reference include_recipe_revision)
      ≡ accepted (build_conan_purl reference include_recipe_revision)
unfolding build_conan_purl
parse-build_conan_purl reference include_recipe_revision =
    let name = percent_encode (name_of reference.name) in
    let version : Bytes =
      if is_empty reference.version then [] else b'@' ∷ percent_encode reference.version in
    let extras = extras_of (qualifiers_of reference include_recipe_revision) in
    parse-IsType (codes "conan") (name ++ (version ++ extras)) conan-IsType (λ e. cc)
      (All-append _ name (version ++ extras) (percent_encode-NoSpace (name_of reference.name)) (
        All-append _ version extras (version-NoSpace reference.version) (
          extras_of-NoSpace (qualifiers_of reference include_recipe_revision)
            (qualifiers_of-NoSpace reference include_recipe_revision))))
      (append-front name (version ++ extras)
        (percent_encode_some (name_of reference.name) (name_some reference.name)))
