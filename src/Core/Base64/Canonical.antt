-- ===== src/Core/Base64/Canonical.antt =====
-- What `base64url_decode` of src/core/base64.cpp accepts.
use bomwerk.Prelude.{
  ℕ, ◌+◌, ◌*◌, ◌/◌, ◌%◌, ◌<◌, ◌≡◌, refl, ap, sym, ◌∙◌, true, false, inl, inr, Option, none, some,
  [], ◌∷◌, ◌++◌, arith, Bytes, IsByte, All, get_or, length, length-append, ◌==◌, ==_iff, bit_and,
  bit_and_0x0F, bit_and_0x03, holds_below, holds_below_lem, find_first-Split, subst, not,
  Bool-cases, Option-cases, ap₂,
}
use bomwerk.Core.Base64.{
  url_alphabet, base64_encode, base64url_symbol_value, first_byte, second_byte, third_byte,
  tail_of_two, tail_of_three, group_bytes, decode_from, base64url_decode,
}
use bomwerk.Core.Base64.Letters.{
  url_letter, unpadded_url, unpadded_one, unpadded_two, unpadded_three, first_byte_sum,
  second_byte_sum, third_byte_sum,
}

get_or_front : (a : Bytes) (m : ℕ) (b : Bytes) → get_or (a ++ m ∷ b) (length a) 0 ≡ m
get_or_front [] m b = refl
get_or_front (x ∷ a) m b = get_or_front a m b

url_table : holds_below 64 (λ n. get_or url_alphabet n 0 == url_letter n) ≡ true
unfolding holds_below url_letter
url_table = refl

-- A symbol with a value is the letter of that value.
value-url_letter : (c n : ℕ) → base64url_symbol_value c ≡ some n → (n < 64) × (c ≡ url_letter n)
unfolding base64url_symbol_value
value-url_letter c n h =
    let (k, _) = find_first-Split (λ x. x == c) url_alphabet n h in
    let small : n < 64 =
      omega (arith, ap length k.whole, length-append k.front (k.mark ∷ k.back), k.at) in
    let found : get_or url_alphabet n 0 ≡ c =
      ap (λ l. get_or l n 0) k.whole
      ∙ ap (λ i. get_or (k.front ++ k.mark ∷ k.back) i 0) (sym k.at)
      ∙ get_or_front k.front k.mark k.back
      ∙ (==_iff _ _).0 k.passes in
    (
      small,
      sym found
          ∙ (==_iff _ _).0
              (holds_below_lem 64 (λ n. get_or url_alphabet n 0 == url_letter n) n url_table small),
    )

pub IsEncodingOf : Bytes → Bytes → Type 0
IsEncodingOf t s = All IsByte s × (t ≡ unpadded_url (base64_encode s))

two_symbols :
    (p q v w : ℕ)
    → base64url_symbol_value p ≡ some v
    → base64url_symbol_value q ≡ some w
    → w % 16 ≡ 0
    → IsEncodingOf (p ∷ q ∷ []) (first_byte v w ∷ [])
unfolding IsEncodingOf
two_symbols p q v w hp hq hw =
    let (sv, ep) = value-url_letter p v hp in
    let (sw, eq) = value-url_letter q w hq in
    let a = first_byte v w in
    let sum : a ≡ v * 4 + w / 16 = first_byte_sum v w sv sw in
    let ha : IsByte a = omega arith in
    let e1 : v ≡ a / 4 = omega arith in
    let e2 : w ≡ a % 4 * 16 = omega arith in
    (
      (ha, tt),
      ap₂ (λ x y. x ∷ y ∷ []) (ep ∙ ap url_letter e1) (eq ∙ ap url_letter e2)
          ∙ sym (unpadded_one a ha),
    )

three_symbols :
    (p q r v w x : ℕ)
    → base64url_symbol_value p ≡ some v
    → base64url_symbol_value q ≡ some w
    → base64url_symbol_value r ≡ some x
    → x % 4 ≡ 0
    → IsEncodingOf (p ∷ q ∷ r ∷ []) (first_byte v w ∷ second_byte w x ∷ [])
unfolding IsEncodingOf
three_symbols p q r v w x hp hq hr hx =
    let (sv, ep) = value-url_letter p v hp in
    let (sw, eq) = value-url_letter q w hq in
    let (sx, er) = value-url_letter r x hr in
    let a = first_byte v w in
    let b = second_byte w x in
    let sum_a : a ≡ v * 4 + w / 16 = first_byte_sum v w sv sw in
    let sum_b : b ≡ w % 16 * 16 + x / 4 = second_byte_sum w x sw sx in
    let ha : IsByte a = omega arith in
    let hb : IsByte b = omega arith in
    let e1 : v ≡ a / 4 = omega arith in
    let e2 : w ≡ a % 4 * 16 + b / 16 = omega arith in
    let e3 : x ≡ b % 16 * 4 = omega arith in
    (
      (ha, (hb, tt)),
      ap₂ (λ y z. y ∷ z) (ep ∙ ap url_letter e1)
            (ap₂ (λ y z. y ∷ z ∷ []) (eq ∙ ap url_letter e2) (er ∙ ap url_letter e3))
          ∙ sym (unpadded_two a b ha hb),
    )

four_symbols :
    (p q r t v w x y : ℕ) (rest u : Bytes)
    → base64url_symbol_value p ≡ some v
    → base64url_symbol_value q ≡ some w
    → base64url_symbol_value r ≡ some x
    → base64url_symbol_value t ≡ some y
    → IsEncodingOf rest u
    → IsEncodingOf (p ∷ q ∷ r ∷ t ∷ rest) (first_byte v w ∷ second_byte w x ∷ third_byte x y ∷ u)
unfolding IsEncodingOf
four_symbols p q r t v w x y rest u hp hq hr ht (hu, e) =
    let (sv, ep) = value-url_letter p v hp in
    let (sw, eq) = value-url_letter q w hq in
    let (sx, er) = value-url_letter r x hr in
    let (sy, et) = value-url_letter t y ht in
    let a = first_byte v w in
    let b = second_byte w x in
    let c = third_byte x y in
    let sum_a : a ≡ v * 4 + w / 16 = first_byte_sum v w sv sw in
    let sum_b : b ≡ w % 16 * 16 + x / 4 = second_byte_sum w x sw sx in
    let sum_c : c ≡ x % 4 * 64 + y = third_byte_sum x y sx sy in
    let ha : IsByte a = omega arith in
    let hb : IsByte b = omega arith in
    let hc : IsByte c = omega arith in
    let e1 : v ≡ a / 4 = omega arith in
    let e2 : w ≡ a % 4 * 16 + b / 16 = omega arith in
    let e3 : x ≡ b % 16 * 4 + c / 64 = omega arith in
    let e4 : y ≡ c % 64 = omega arith in
    (
      (ha, (hb, (hc, hu))),
      ap₂ (λ i j. i ∷ j) (ep ∙ ap url_letter e1)
            (ap₂ (λ i j. i ∷ j) (eq ∙ ap url_letter e2)
              (ap₂ (λ i j. i ∷ j) (er ∙ ap url_letter e3)
                (ap₂ (λ i j. i ∷ j) (et ∙ ap url_letter e4) e)))
          ∙ sym (unpadded_three a b c u ha hb hc),
    )

masked : (b : ℕ) → (not (b == 0)) ≡ false → b ≡ 0
masked b h = ground (arith, h)

tail_two :
    (p q : ℕ) (s : Bytes) (first second : Option ℕ)
    → base64url_symbol_value p ≡ first
    → base64url_symbol_value q ≡ second
    → tail_of_two first second ≡ some s
    → IsEncodingOf (p ∷ q ∷ []) s
unfolding tail_of_two
tail_two p q s none second hp hq h = cc
tail_two p q s (some v) none hp hq h = cc
tail_two p q s (some v) (some w) hp hq h = elim (Bool-cases (not (bit_and w 0x0F == 0))) [
  | inl bad ↦ absurd (ground (arith, bad, h))
  | inr fine ↦
      let unused : w % 16 ≡ 0 = omega (arith, masked _ fine, bit_and_0x0F w) in
      let e : first_byte v w ∷ [] ≡ s = ground (arith, fine, h) in
      subst (IsEncodingOf (p ∷ q ∷ [])) e (two_symbols p q v w hp hq unused)
]

tail_three :
    (p q r : ℕ) (s : Bytes) (first second third : Option ℕ)
    → base64url_symbol_value p ≡ first
    → base64url_symbol_value q ≡ second
    → base64url_symbol_value r ≡ third
    → tail_of_three first second third ≡ some s
    → IsEncodingOf (p ∷ q ∷ r ∷ []) s
unfolding tail_of_three
tail_three p q r s none second third hp hq hr h = cc
tail_three p q r s (some v) none third hp hq hr h = cc
tail_three p q r s (some v) (some w) none hp hq hr h = cc
tail_three p q r s (some v) (some w) (some x) hp hq hr h =
    elim (Bool-cases (not (bit_and x 0x03 == 0))) [
      | inl bad ↦ absurd (ground (arith, bad, h))
      | inr fine ↦
          let unused : x % 4 ≡ 0 = omega (arith, masked _ fine, bit_and_0x03 x) in
          let e : first_byte v w ∷ second_byte w x ∷ [] ≡ s = ground (arith, fine, h) in
          subst (IsEncodingOf (p ∷ q ∷ r ∷ [])) e (three_symbols p q r v w x hp hq hr unused)
    ]

next_group :
    (p q r t : ℕ) (rest u front : Bytes) (first second third fourth : Option ℕ)
    → base64url_symbol_value p ≡ first
    → base64url_symbol_value q ≡ second
    → base64url_symbol_value r ≡ third
    → base64url_symbol_value t ≡ fourth
    → group_bytes first second third fourth ≡ some front
    → IsEncodingOf rest u
    → IsEncodingOf (p ∷ q ∷ r ∷ t ∷ rest) (front ++ u)
unfolding group_bytes
next_group p q r t rest u front none second third fourth hp hq hr ht h e = cc
next_group p q r t rest u front (some v) none third fourth hp hq hr ht h e = cc
next_group p q r t rest u front (some v) (some w) none fourth hp hq hr ht h e = cc
next_group p q r t rest u front (some v) (some w) (some x) none hp hq hr ht h e = cc
next_group p q r t rest u front (some v) (some w) (some x) (some y) hp hq hr ht h e =
    let e' : first_byte v w ∷ second_byte w x ∷ third_byte x y ∷ [] ≡ front = cc in
    subst (λ f. IsEncodingOf (p ∷ q ∷ r ∷ t ∷ rest) (f ++ u)) e'
      (four_symbols p q r t v w x y rest u hp hq hr ht e)

decode_canonical :
    (t s : Bytes) → (length t % 4 == 1) ≡ false → decode_from t ≡ some s → IsEncodingOf t s
unfolding decode_from
decode_canonical [] s n h =
    let e : ◌≡◌ {A = Bytes} [] s = cc in
    subst (IsEncodingOf []) e (unfold IsEncodingOf base64_encode unpadded_url in (tt, refl))
decode_canonical (p ∷ []) s n h = cc
decode_canonical (p ∷ q ∷ []) s n h = tail_two p q s _ _ refl refl h
decode_canonical (p ∷ q ∷ r ∷ []) s n h = tail_three p q r s _ _ _ refl refl refl h
decode_canonical (p ∷ q ∷ r ∷ t ∷ rest) s n h =
    elim (Option-cases (
      group_bytes (base64url_symbol_value p) (base64url_symbol_value q) (base64url_symbol_value r)
        (base64url_symbol_value t))) [
          | inl bad ↦ absurd (ground (arith, bad, h))
          | inr (front, good) ↦ elim (Option-cases (decode_from rest)) [
            | inl bad ↦ absurd (ground (arith, good, bad, h))
            | inr (u, later) ↦
                let e : front ++ u ≡ s = ground (arith, good, later, h) in
                subst (IsEncodingOf (p ∷ q ∷ r ∷ t ∷ rest)) e (
                  next_group p q r t rest u front _ _ _ _ refl refl refl refl good
                    (decode_canonical rest u (ground (arith, n)) later))
          ]
        ]

-- An accepted text is the one unpadded encoding of what it decodes to, and that is a text of bytes:
-- set bits that no byte uses, a stray symbol and a length that no encoding has are all refused.
pub base64url_decode_canonical :
    (t s : Bytes)
    → base64url_decode t ≡ some s
    → All IsByte s × (t ≡ unpadded_url (base64_encode s))
unfolding base64url_decode IsEncodingOf
base64url_decode_canonical t s h = elim (Bool-cases (length t % 4 == 1)) [
  | inl bad ↦ absurd (ground (arith, bad, h))
  | inr fine ↦ decode_canonical t s fine (rw fine at h)
]
