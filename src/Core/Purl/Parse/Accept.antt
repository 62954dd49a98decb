-- ===== src/Core/Purl/Parse/Accept.antt =====
-- `Purl::parse` of src/core/purl.cpp: which texts it accepts, and their canonical form.
use bomwerk.Prelude.{
  ℕ, ◌+◌, ◌-◌, ◌≡◌, ◌≢◌, ◌<◌, refl, ap, sym, ◌∙◌, true, false, Option, some, [], ◌∷◌, ◌++◌, arith,
  Bytes, Fails, length, length-append, take, drop, substr, ◌==◌, append_assoc, take-length-append,
  drop-length-append, drop_past,
}
use bomwerk.Core.Text.{to_lower_ascii, equals_ascii_ignore_case}
use bomwerk.Core.Warnings.{Result}
use bomwerk.Core.Purl.{find_separators, Purl, purl_scheme, canonical_purl_scheme, parse_at, parse}
use bomwerk.Core.Purl.Parse.Shape.{is_colon, is_slash, NoSpace, found, find_separators_both}

-- scheme:type/rest, without whitespace, the scheme being "pkg" in any case.
pub record IsPurl (raw : Bytes) : Type 0 where
  pub scheme : Bytes
  pub type : Bytes
  pub rest : Bytes
  pub whole : raw ≡ scheme ++ b':' ∷ (type ++ b'/' ∷ rest)
  pub scheme_tight : NoSpace scheme
  pub type_tight : NoSpace type
  pub rest_tight : NoSpace rest
  pub no_colon : Fails is_colon scheme
  pub no_slash : Fails is_slash type
  pub is_pkg : equals_ascii_ignore_case scheme purl_scheme ≡ true
  pub type_some : type ≢ []
  pub rest_some : rest ≢ []

abbrev pub canonical_of : Bytes → Bytes → Bytes
canonical_of type rest = canonical_purl_scheme ++ (to_lower_ascii type ++ b'/' ∷ rest)

abbrev pub accepted : Bytes → Result Purl
accepted canonical = record {
  value = record { canonical = canonical };
  warnings = [];
  complete = true;
}

-- the positions in a text of the full shape
module _ (a t r : Bytes) where
  pub whole_length : length (a ++ b':' ∷ (t ++ b'/' ∷ r)) ≡ length a + 1 + length t + 1 + length r
  whole_length = omega (arith, length-append a (b':' ∷ (t ++ b'/' ∷ r)), length-append t (b'/' ∷ r))

  pub scheme_part : take (length a) (a ++ b':' ∷ (t ++ b'/' ∷ r)) ≡ a
  scheme_part = take-length-append a _

  type_part :
      substr (a ++ b':' ∷ (t ++ b'/' ∷ r)) (length a + 1) (length a + 1 + length t - (length a + 1))
      ≡ t
  type_part =
      let count : length a + 1 + length t - (length a + 1) ≡ length t = omega arith in
      rw (drop_past a b':' (t ++ b'/' ∷ r), count) (take-length-append t (b'/' ∷ r))

  rest_part : drop (length a + 1 + length t) (a ++ b':' ∷ (t ++ b'/' ∷ r)) ≡ b'/' ∷ r
  rest_part =
      let place : length a + 1 + length t ≡ length (a ++ b':' ∷ t) =
        omega (arith, length-append a (b':' ∷ t)) in
      let regroup : a ++ b':' ∷ (t ++ b'/' ∷ r) ≡ (a ++ b':' ∷ t) ++ b'/' ∷ r =
        sym (append_assoc a (b':' ∷ t) (b'/' ∷ r)) in
      rw (regroup, place) (drop-length-append (a ++ b':' ∷ t) (b'/' ∷ r))

pub append-ne-nil : (a : Bytes) (c : ℕ) (b : Bytes) → a ++ c ∷ b ≢ []
append-ne-nil [] c b e = cc
append-ne-nil (x ∷ a) c b e = cc

positive : (t : Bytes) → t ≢ [] → 0 < length t
positive [] h = absurd (h refl)
positive (x ∷ t) h = omega arith

pub parse-found :
    (raw : Bytes) (scheme type : Option ℕ)
    → raw ≢ []
    → find_separators raw ≡ found scheme type
    → parse raw ≡ parse_at raw scheme type
unfolding parse
parse-found [] scheme type ne e = absurd (ne refl)
parse-found (x ∷ s) scheme type ne e = rw e

parse_shape :
    (a t r : Bytes)
    → equals_ascii_ignore_case a purl_scheme ≡ true
    → t ≢ []
    → r ≢ []
    → parse_at (a ++ b':' ∷ (t ++ b'/' ∷ r)) (some (length a)) (some (length a + 1 + length t))
      ≡ accepted (canonical_of t r)
unfolding parse_at
parse_shape a t r pkg ht hr =
    let some_type : (length a + 1 + length t == length a + 1) ≡ false =
      ground (arith, positive t ht) in
    let some_rest : (length a + 1 + length t + 1 == length (a ++ b':' ∷ (t ++ b'/' ∷ r))) ≡ false =
      ground (arith, positive r hr, whole_length a t r) in
    rw (scheme_part a t r, pkg, some_type, some_rest, type_part a t r, rest_part a t r)

-- A text of the shape scheme:type/rest is accepted, and its canonical form has the scheme and the
-- type in lower case and the rest as it is.
pub parse_accepts :
    {raw : Bytes} (p : IsPurl raw) → parse raw ≡ accepted (canonical_of p.type p.rest)
parse_accepts {raw} p =
    ap parse p.whole
    ∙ parse-found _ _ _ (append-ne-nil p.scheme b':' _) (
        find_separators_both p.scheme p.type p.rest p.scheme_tight p.type_tight p.rest_tight
          p.no_colon p.no_slash)
    ∙ parse_shape p.scheme p.type p.rest p.is_pkg p.type_some p.rest_some
