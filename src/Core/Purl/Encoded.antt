-- ===== src/Core/Purl/Encoded.antt =====
-- Purls put together from percent-encoded parts: src/core/percent.cpp and src/core/purl.cpp together.
use bomwerk.Prelude.{
  ℕ, ◌/◌, ◌≡◌, ◌≢◌, refl, sym, ap, ◌∙◌, subst, true, false, [], ◌∷◌, ◌++◌, arith, Bytes, All-append,
  Fails, Fails-all_of, codes, get_or, get_or-All, ◌==◌, is_empty, if◌then◌else◌, bit_and,
  Bool-cases, inl, inr,
}
use bomwerk.Core.Text.{to_lower_ascii, to_lower_ascii_char, equals_ascii_ignore_case}
use bomwerk.Core.Percent.{
  upper_hex_digits, is_unreserved, encoded_char, percent_encode, percent_encode_purl_namespace,
}
use bomwerk.Core.Percent.Namespace.{slashes_kept, percent_encode_purl_namespace-slashes_kept}
use bomwerk.Core.Purl.{is_purl_whitespace, parse, purl_scheme}
use bomwerk.Core.Purl.Parse.Shape.{NoSpace, is_slash}
use bomwerk.Core.Purl.Parse.Accept.{IsPurl, accepted, parse_accepts}

abbrev IsSolid : ℕ → Type 0
IsSolid c = is_purl_whitespace c ≡ false

upper_hex_digits-NoSpace : NoSpace upper_hex_digits
upper_hex_digits-NoSpace = Fails-all_of is_purl_whitespace upper_hex_digits refl

digit-IsSolid : (i : ℕ) → IsSolid (get_or upper_hex_digits i 0)
digit-IsSolid i = get_or-All IsSolid upper_hex_digits i 0 upper_hex_digits-NoSpace refl

encoded_char-NoSpace : (c : ℕ) → NoSpace (encoded_char c)
unfolding encoded_char
encoded_char-NoSpace c = elim (Bool-cases (is_unreserved c)) [
  | inl e ↦ rw (e) (ground arith, tt)
  | inr e ↦ rw (e) (refl, (digit-IsSolid (c / 16), (digit-IsSolid (bit_and c 0x0F), tt)))
]

pub percent_encode-NoSpace : (s : Bytes) → NoSpace (percent_encode s)
unfolding percent_encode
percent_encode-NoSpace [] = tt
percent_encode-NoSpace (c ∷ s) =
    All-append IsSolid (encoded_char c) (percent_encode s) (encoded_char-NoSpace c)
      (percent_encode-NoSpace s)

slashes_kept-NoSpace : (s : Bytes) → NoSpace (slashes_kept s)
unfolding slashes_kept
slashes_kept-NoSpace [] = tt
slashes_kept-NoSpace (c ∷ s) = elim (Bool-cases (c == b'/')) [
  | inl e ↦ rw (slashes_kept, e) (ground arith, slashes_kept-NoSpace s)
  | inr e ↦
      rw (slashes_kept, e)
        (All-append IsSolid (encoded_char c) (slashes_kept s) (encoded_char-NoSpace c)
          (slashes_kept-NoSpace s))
]

pub percent_encode_purl_namespace-NoSpace : (s : Bytes) → NoSpace (percent_encode_purl_namespace s)
percent_encode_purl_namespace-NoSpace s =
    subst NoSpace (sym (percent_encode_purl_namespace-slashes_kept s)) (slashes_kept-NoSpace s)

-- A package type as the program writes it, or nothing.
pub record IsType (type : Bytes) : Type 0 where
  pub solid : NoSpace type
  pub whole : Fails is_slash type
  pub lower : to_lower_ascii type ≡ type

pkg_scheme : equals_ascii_ignore_case purl_scheme purl_scheme ≡ true
unfolding equals_ascii_ignore_case to_lower_ascii_char
pkg_scheme = refl

-- pkg:type/rest, without whitespace, is accepted as it is.
pub parse-IsType :
    (type rest : Bytes)
    → IsType type
    → type ≢ []
    → NoSpace rest
    → rest ≢ []
    → parse (codes "pkg:" ++ (type ++ b'/' ∷ rest))
      ≡ accepted (codes "pkg:" ++ (type ++ b'/' ∷ rest))
parse-IsType type rest t some_type solid some_rest =
    let shape : IsPurl (codes "pkg:" ++ (type ++ b'/' ∷ rest)) = record {
      scheme = purl_scheme;
      type = type;
      rest = rest;
      whole = refl;
      scheme_tight = (refl, (refl, (refl, tt)));
      type_tight = t.solid;
      rest_tight = solid;
      no_colon = (refl, (refl, (refl, tt)));
      no_slash = t.whole;
      is_pkg = pkg_scheme;
      type_some = some_type;
      rest_some = some_rest;
    } in
    parse_accepts shape ∙ ap (λ u. accepted (codes "pkg:" ++ (u ++ b'/' ∷ rest))) t.lower

pub append-back : (a b : Bytes) → b ≢ [] → a ++ b ≢ []
append-back [] b h = h
append-back (x ∷ a) b h = λ e. cc

pub append-front : (a b : Bytes) → a ≢ [] → a ++ b ≢ []
append-front [] b h = absurd (h refl)
append-front (x ∷ a) b h = λ e. cc

pub version-NoSpace :
    (version : Bytes) → NoSpace (if is_empty version then [] else b'@' ∷ percent_encode version)
version-NoSpace [] = tt
version-NoSpace (c ∷ s) = (refl, percent_encode-NoSpace (c ∷ s))
