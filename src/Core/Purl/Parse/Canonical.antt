-- ===== src/Core/Purl/Parse/Canonical.antt =====
-- The canonical form of src/core/purl.cpp is itself a purl, and its own canonical form.
use bomwerk.Prelude.{◌≡◌, ◌≢◌, refl, ap, sym, subst, ◌∙◌, true, [], ◌∷◌, ◌++◌, arith, Bytes, Fails}
use bomwerk.Core.Text.{to_lower_ascii_char, to_lower_ascii}
use bomwerk.Core.Text.Case.{to_lower_ascii_twice, equals_ascii_ignore_case_iff}
use bomwerk.Core.Warnings.{Result}
use bomwerk.Core.Purl.{Purl, purl_scheme, canonical_purl_scheme, parse}
use bomwerk.Core.Purl.Parse.Shape.{is_slash, NoSpace}
use bomwerk.Core.Purl.Parse.Accept.{IsPurl, canonical_of, accepted, parse_accepts}
use bomwerk.Core.Purl.Parse.Sound.{parse_iff}

lower_tight : (s : Bytes) → NoSpace s → NoSpace (to_lower_ascii s)
unfolding to_lower_ascii to_lower_ascii_char
lower_tight [] h = tt
lower_tight (c ∷ s) (hc, h) = (ground arith, lower_tight s h)

lower_no_slash : (s : Bytes) → Fails is_slash s → Fails is_slash (to_lower_ascii s)
unfolding to_lower_ascii to_lower_ascii_char
lower_no_slash [] h = tt
lower_no_slash (c ∷ s) (hc, h) = (ground arith, lower_no_slash s h)

lower-ne-nil : (s : Bytes) → s ≢ [] → to_lower_ascii s ≢ []
unfolding to_lower_ascii
lower-ne-nil [] h e = h refl
lower-ne-nil (c ∷ s) h e = cc

canonical-IsPurl : {raw : Bytes} (p : IsPurl raw) → IsPurl (canonical_of p.type p.rest)
canonical-IsPurl p = record {
  scheme = purl_scheme;
  type = to_lower_ascii p.type;
  rest = p.rest;
  whole = refl;
  scheme_tight = (refl, (refl, (refl, tt)));
  type_tight = lower_tight p.type p.type_tight;
  rest_tight = p.rest_tight;
  no_colon = (refl, (refl, (refl, tt)));
  no_slash = lower_no_slash p.type p.no_slash;
  is_pkg = (equals_ascii_ignore_case_iff purl_scheme purl_scheme).1 refl;
  type_some = lower-ne-nil p.type p.type_some;
  rest_some = p.rest_some;
}

-- The canonical form of an accepted purl is accepted, without a warning, and is its own canonical
-- form.
pub parse-canonical :
    (raw : Bytes)
    → (parse raw).complete ≡ true
    → parse (parse raw).value.canonical ≡ accepted (parse raw).value.canonical
unfolding canonical-IsPurl
parse-canonical raw k =
    let p = (parse_iff raw).0 k in
    let e = parse_accepts p in
    let same : (parse raw).value.canonical ≡ canonical_of p.type p.rest =
      ap (λ (r : Result Purl). r.value.canonical) e in
    subst (λ c. parse c ≡ accepted c) (sym same)
      (parse_accepts (canonical-IsPurl p)
        ∙ ap (λ t. accepted (canonical_purl_scheme ++ (t ++ b'/' ∷ p.rest)))
            (to_lower_ascii_twice p.type))
