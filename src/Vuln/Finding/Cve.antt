-- ===== src/Vuln/Finding/Cve.antt =====
-- `is_cve_shaped_id` and `canonical_cve_id` of src/vuln/finding.cpp.
use bomwerk.Prelude.{
  ℕ, ◌≤◌, ◌≡◌, ◌↔◌, refl, sym, ap, ◌∙◌, Bool, true, false, not, [], ◌∷◌, ◌++◌, arith, inl, inr,
  Bytes, codes, starts_with, starts_with-split, All, all_of, length, length-take, length-drop, take,
  drop, take-append-drop, drop-get_or, get_or, ltb, Bool-cases, ◌==◌, ==_iff, if◌then◌else◌,
}
use bomwerk.Vuln.Finding.{is_ascii_digit, is_cve_shaped_id}

abbrev DigitsOnly : Bytes → Type 0
DigitsOnly = All (λ c. is_ascii_digit c ≡ true)

-- CVE-year-number, a year of four digits and a number of four or more.
pub record IsCve (id : Bytes) : Type 0 where
  pub year : Bytes
  pub number : Bytes
  pub whole : id ≡ codes "CVE-" ++ (year ++ b'-' ∷ number)
  pub year_size : length year ≡ 4
  pub number_size : 4 ≤ length number
  pub year_digits : DigitsOnly year
  pub number_digits : DigitsOnly number

digits_iff : (s : Bytes) → (all_of is_ascii_digit s ≡ true) ↔ DigitsOnly s
digits_iff [] = (λ _. tt, λ _. refl)
digits_iff (c ∷ s) =
    let (to, from) = digits_iff s in
    (
      λ h. elim (Bool-cases (is_ascii_digit c)) [
        | inl e ↦ (e, to (rw e at h))
        | inr e ↦ absurd (ground arith)
      ],
      λ (hc, h). rw hc (from h),
    )

guard : (b r : Bool) → (if not b then false else r) ≡ true → (b ≡ true) × (r ≡ true)
guard true r h = (refl, h)
guard false r h = cc

check : (b r : Bool) → (if b then false else r) ≡ true → (b ≡ false) × (r ≡ true)
check true r h = cc
check false r h = (refl, h)

shape : (s : Bytes) → is_cve_shaped_id s ≡ true → IsCve s
unfolding is_cve_shaped_id
shape s h =
    let rest = drop 4 s in
    let (prefix, h1) = guard (starts_with s (codes "CVE-")) _ h in
    let (long, h2) = check (ltb (length rest) 9) _ h1 in
    let (year, h3) = guard (all_of is_ascii_digit (take 4 rest)) _ h2 in
    let (dash, number) = guard (get_or rest 4 0 == b'-') _ h3 in
    let size : 9 ≤ length rest = ground arith in
    let mark : get_or rest 4 0 ≡ b'-' = (==_iff (get_or rest 4 0) b'-').0 dash in
    record {
      year = take 4 rest;
      number = drop 5 rest;
      whole =
          starts_with-split s (codes "CVE-") prefix
          ∙ ap (λ t. codes "CVE-" ++ t)
              (sym (take-append-drop 4 rest)
                ∙ ap (λ t. take 4 rest ++ t)
                    (drop-get_or 4 rest 0 (omega arith) ∙ ap (λ (c : ℕ). c ∷ drop 5 rest) mark));
      year_size = omega (arith, length-take 4 rest);
      number_size = omega (arith, length-drop 5 rest);
      year_digits = (digits_iff (take 4 rest)).0 year;
      number_digits = (digits_iff (drop 5 rest)).0 number;
    }

four_digits :
    (year number : Bytes)
    → length year ≡ 4
    → 4 ≤ length number
    → DigitsOnly year
    → DigitsOnly number
    → is_cve_shaped_id (codes "CVE-" ++ (year ++ b'-' ∷ number)) ≡ true
unfolding is_cve_shaped_id starts_with
four_digits [] number e le hy hn = absurd (omega arith)
four_digits (a ∷ []) number e le hy hn = absurd (omega arith)
four_digits (a ∷ b ∷ []) number e le hy hn = absurd (omega arith)
four_digits (a ∷ b ∷ c ∷ []) number e le hy hn = absurd (omega arith)
four_digits (a ∷ b ∷ c ∷ d ∷ []) number e le hy hn =
    let long : ltb (length (a ∷ b ∷ c ∷ d ∷ b'-' ∷ number)) 9 ≡ false = ground arith in
    rw (long, (digits_iff (a ∷ b ∷ c ∷ d ∷ [])).1 hy) ((digits_iff number).1 hn)
four_digits (a ∷ b ∷ c ∷ d ∷ f ∷ year) number e le hy hn = absurd (omega arith)

-- An id is taken for a CVE exactly when it is `CVE-`, a year of four digits, a dash and a number of
-- four digits or more.
pub is_cve_shaped_id_iff : (s : Bytes) → (is_cve_shaped_id s ≡ true) ↔ IsCve s
is_cve_shaped_id_iff s = (
  shape s,
  λ c.
      ap is_cve_shaped_id c.whole
      ∙ four_digits c.year c.number c.year_size c.number_size c.year_digits c.number_digits,
)
