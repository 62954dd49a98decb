-- ===== src/Core/Purl/Parse/Sound.antt =====
-- `Purl::parse` of src/core/purl.cpp: what it refuses, so that every accepted text is a purl.
use bomwerk.Prelude.{
  ℕ, ◌+◌, ◌≡◌, ◌≢◌, ap, sym, ◌∙◌, true, inl, inr, ◌↔◌, subst, Option, none, some, [], ◌∷◌, ◌++◌,
  arith, Bytes, All-front, All-back, Fails, length, ==_iff, Bool-cases, Option-cases, find_first,
  find_first-Split, find_first-none_iff,
}
use bomwerk.Core.Text.{equals_ascii_ignore_case}
use bomwerk.Core.Warnings.{Result}
use bomwerk.Core.Purl.{is_purl_whitespace, find_separators, Purl, purl_scheme, parse_at, parse}
use bomwerk.Core.Purl.Parse.Shape.{
  is_colon, is_slash, NoSpace, found, find_separators-none, find_separators_scheme,
  find_separators_both, find_separators_whitespace,
}
use bomwerk.Core.Purl.Parse.Accept.{
  IsPurl, append-ne-nil, parse-found, whole_length, scheme_part, parse_accepts,
}

refused_whitespace :
    (a : Bytes) (c : ℕ) (b : Bytes)
    → NoSpace a
    → is_purl_whitespace c ≡ true
    → (parse (a ++ c ∷ b)).complete ≡ true
    → ⊥
unfolding parse
refused_whitespace [] c b h hc k = ground (arith, find_separators_whitespace [] c b h hc)
refused_whitespace (x ∷ a) c b h hc k = ground (arith, find_separators_whitespace (x ∷ a) c b h hc)

refused_no_scheme :
    (raw : Bytes) (type : Option ℕ)
    → raw ≢ []
    → find_separators raw ≡ found none type
    → (parse raw).complete ≡ true
    → ⊥
refused_no_scheme raw type ne e k = unfold parse_at in cc (parse-found raw none type ne e)

refused_no_type :
    (raw : Bytes) (k : ℕ)
    → raw ≢ []
    → find_separators raw ≡ found (some k) none
    → (parse raw).complete ≡ true
    → ⊥
refused_no_type raw k ne e h =
    unfold parse_at in ground (arith, parse-found raw (some k) none ne e, h)

abbrev parse_whole : Bytes → Bytes → Bytes → Result Purl
parse_whole a t r =
    parse_at (a ++ b':' ∷ (t ++ b'/' ∷ r)) (some (length a)) (some (length a + 1 + length t))

module _ (a t r : Bytes) (k : (parse_whole a t r).complete ≡ true) where
  needs_pkg : equals_ascii_ignore_case a purl_scheme ≡ true
  unfolding parse_at
  needs_pkg = elim (Bool-cases (equals_ascii_ignore_case a purl_scheme)) [
    | inl e ↦ e
    | inr e ↦ absurd (ground (arith, k, e, scheme_part a t r))
  ]

  needs_type : t ≢ []
  unfolding parse_at
  needs_type e =
      let nothing : length t ≡ 0 = ap length e in
      ground (arith, k, needs_pkg, scheme_part a t r, nothing)

  needs_rest : r ≢ []
  unfolding parse_at
  needs_rest e =
      let nothing : length r ≡ 0 = ap length e in
      ground (arith, k, needs_pkg, scheme_part a t r, nothing, whole_length a t r)

module _ (a : Bytes) (ha : NoSpace a) (hc : Fails is_colon a) where
  -- behind the scheme
  sound_scheme :
      (b : Bytes) → NoSpace b → (parse (a ++ b':' ∷ b)).complete ≡ true → IsPurl (a ++ b':' ∷ b)
  sound_scheme b hb k = elim (Option-cases (find_first is_slash b)) [
    | inl miss ↦ absurd (
        refused_no_type _ (length a) (append-ne-nil a b':' b)
          (find_separators_scheme a b ha hb hc (find_first-none_iff is_slash b miss)) k)
    | inr (j, hit) ↦
        let (d, before) = find_first-Split is_slash b j hit in
        let whole : b ≡ d.front ++ b'/' ∷ d.back =
          d.whole ∙ ap (λ m. d.front ++ m ∷ d.back) ((==_iff _ _).0 d.passes) in
        let tight : NoSpace (d.front ++ b'/' ∷ d.back) = subst NoSpace whole hb in
        let front_tight = All-front _ d.front (b'/' ∷ d.back) tight in
        let back_tight = (All-back _ d.front (b'/' ∷ d.back) tight).1 in
        let at =
          parse-found (a ++ b':' ∷ (d.front ++ b'/' ∷ d.back)) _ _
            (append-ne-nil a b':' (d.front ++ b'/' ∷ d.back))
            (find_separators_both a d.front d.back ha front_tight back_tight hc before) in
        let k' : (parse_whole a d.front d.back).complete ≡ true =
          subst (λ (r : Result Purl). r.complete ≡ true) at
            (subst (λ b. (parse (a ++ b':' ∷ b)).complete ≡ true) whole k) in
        record {
          scheme = a;
          type = d.front;
          rest = d.back;
          whole = ap (λ b. a ++ b':' ∷ b) whole;
          scheme_tight = ha;
          type_tight = front_tight;
          rest_tight = back_tight;
          no_colon = hc;
          no_slash = before;
          is_pkg = needs_pkg a d.front d.back k';
          type_some = needs_type a d.front d.back k';
          rest_some = needs_rest a d.front d.back k';
        }
  ]

sound_tight : (raw : Bytes) → raw ≢ [] → NoSpace raw → (parse raw).complete ≡ true → IsPurl raw
sound_tight raw ne h k = elim (Option-cases (find_first is_colon raw)) [
  | inl miss ↦ absurd (
      refused_no_scheme raw none ne
        (find_separators-none raw h (find_first-none_iff is_colon raw miss)) k)
  | inr (i, hit) ↦
      let (c, before) = find_first-Split is_colon raw i hit in
      let whole : raw ≡ c.front ++ b':' ∷ c.back =
        c.whole ∙ ap (λ m. c.front ++ m ∷ c.back) ((==_iff _ _).0 c.passes) in
      let tight : NoSpace (c.front ++ b':' ∷ c.back) = subst NoSpace whole h in
      subst IsPurl (sym whole) (
        sound_scheme c.front (All-front _ c.front (b':' ∷ c.back) tight) before c.back
          (All-back _ c.front (b':' ∷ c.back) tight).1
          (subst (λ t. (parse t).complete ≡ true) whole k))
]

empty_refused : (parse []).complete ≡ true → ⊥
unfolding parse
empty_refused k = cc

sound : (raw : Bytes) → (parse raw).complete ≡ true → IsPurl raw
sound [] k = absurd (empty_refused k)
sound (x ∷ s) k = elim (Option-cases (find_first is_purl_whitespace (x ∷ s))) [
  | inl miss ↦ sound_tight (x ∷ s) (λ e. cc) (find_first-none_iff is_purl_whitespace (x ∷ s) miss) k
  | inr (i, hit) ↦
      let (c, before) = find_first-Split is_purl_whitespace (x ∷ s) i hit in
      absurd (
        refused_whitespace c.front c.mark c.back before c.passes
          (subst (λ t. (parse t).complete ≡ true) c.whole k))
]

-- A text is accepted exactly when it is scheme:type/rest without whitespace, the scheme being "pkg"
-- in any case, the type and the rest not empty.
pub parse_iff : (raw : Bytes) → ((parse raw).complete ≡ true) ↔ IsPurl raw
parse_iff raw = (sound raw, λ p. ap (λ (r : Result Purl). r.complete) (parse_accepts p))
