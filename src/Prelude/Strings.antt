-- ===== src/Prelude/Strings.antt =====
-- std::string and std::string_view as lists of byte values, with the member functions that the
-- program calls. A position is a native number; `none` stands for `npos`.
use Prim.Native.Nat.{ℕ, suc, ◌+◌, ◌-◌, ◌<◌, compare, Ordering}
use Prim.Native.Char.{code}
use Prim.Native.String.{String}
use mathlib.Core.Path.{◌≡◌, refl, ap}
use mathlib.Core.Logic.{◌↔◌, inl, inr}
use mathlib.Core.Bool.{not, Bool, true, false, ◌&&◌}
use mathlib.Core.Option
use mathlib.Core.Option.{Option, none, some}
use mathlib.Core.List.{List, [], ◌∷◌, ◌++◌}
use native.Mathlib.Omega.{arith}
use native.Mathlib.Numerals.{add-one}
use bomwerk.Prelude.Tests.{leb, ◌==◌, if◌then◌else◌, Bool-cases, Option-cases}
use bomwerk.Prelude.Lists.{all_of, length, take, drop, All}

abbrev pub Bytes : Type 0
Bytes = List ℕ

-- The code points of a literal, which are its bytes when the text is ASCII.
abbrev pub codes : String → Bytes
codes String.[] = []
codes (String.◌∷◌ c s) = code c ∷ codes s

abbrev pub IsByte : ℕ → Type 0
IsByte c = c < 256

abbrev pub is_empty : Bytes → Bool
is_empty [] = true
is_empty (x ∷ s) = false

-- left == right
unfoldable pub equal : Bytes → Bytes → Bool
equal [] [] = true
equal [] (y ∷ t) = false
equal (x ∷ s) [] = false
equal (x ∷ s) (y ∷ t) = x == y && equal s t

pub equal_iff : (s t : Bytes) → (equal s t ≡ true) ↔ (s ≡ t)
unfolding equal
equal_iff [] [] = ground arith
equal_iff [] (y ∷ t) = ground arith
equal_iff (x ∷ s) [] = ground arith
equal_iff (x ∷ s) (y ∷ t) = ground (arith, equal_iff s t)

-- left < right, byte by byte
unfoldable pub less : Bytes → Bytes → Bool
less [] [] = false
less [] (y ∷ t) = true
less (x ∷ s) [] = false
less (x ∷ s) (y ∷ t) =
    let rest = less s t in
    elim (compare x y) [ Ordering.lt ↦ true | Ordering.eq ↦ rest | Ordering.gt ↦ false ]

-- text.starts_with(prefix)
unfoldable pub starts_with : Bytes → Bytes → Bool
starts_with s [] = true
starts_with [] (y ∷ t) = false
starts_with (x ∷ s) (y ∷ t) = x == y && starts_with s t

-- text.ends_with(suffix)
unfoldable pub ends_with : Bytes → Bytes → Bool
unfolding equal
ends_with s t = leb (length t) (length s) && equal (drop (length s - length t) s) t

-- text.substr(position, count)
abbrev pub substr : Bytes → ℕ → ℕ → Bytes
substr s position count = take count (drop position s)

-- The position of the first byte, and of the last, that passes a test.
unfoldable pub find_first : (ℕ → Bool) → Bytes → Option ℕ
find_first p [] = none
find_first p (x ∷ s) = if p x then some 0 else Option.map suc (find_first p s)

unfoldable pub find_last : (ℕ → Bool) → Bytes → Option ℕ
find_last p [] = none
find_last p (x ∷ s) = elim (find_last p s) [
  | some i ↦ some (suc i)
  | none ↦ if p x then some 0 else none
]

abbrev pub Fails : (ℕ → Bool) → Bytes → Type 0
Fails p = All (λ x. p x ≡ false)

pub record Split (p : ℕ → Bool) (s : Bytes) (i : ℕ) : Type 0 where
  pub front : Bytes
  pub mark : ℕ
  pub back : Bytes
  pub whole : s ≡ front ++ mark ∷ back
  pub at : length front ≡ i
  pub passes : p mark ≡ true

module _ (p : ℕ → Bool) where
  pub find_first-none : (s : Bytes) → Fails p s → find_first p s ≡ none
  unfolding find_first
  find_first-none [] h = refl
  find_first-none (x ∷ s) (hx, h) = rw (hx, find_first-none s h)

  pub find_first-append :
      (a : Bytes) (c : ℕ) (b : Bytes)
      → Fails p a
      → p c ≡ true
      → find_first p (a ++ c ∷ b) ≡ some (length a)
  unfolding find_first
  find_first-append [] c b h hc = rw hc
  find_first-append (x ∷ a) c b (hx, h) hc = rw (hx, find_first-append a c b h hc)

  pub find_first-none_iff : (s : Bytes) → find_first p s ≡ none → Fails p s
  unfolding find_first
  find_first-none_iff [] h = tt
  find_first-none_iff (x ∷ s) h = ground (arith, find_first-none_iff s)

  pub find_first-Split :
      (s : Bytes) (i : ℕ) → find_first p s ≡ some i → (c : Split p s i) × Fails p c.front
  unfolding find_first
  find_first-Split [] i h = cc
  find_first-Split (x ∷ s) i h = elim (Bool-cases (p x)) [
    | inl e ↦ (
      record {
        front = [];
        mark = x;
        back = s;
        whole = refl;
        at = ground (arith, rw e at h);
        passes = e;
      },
      tt,
    )
    | inr e ↦ elim (Option-cases (find_first p s)) [
      | inl miss ↦ absurd (ground arith)
      | inr (j, hit) ↦
          let (c, fails) = find_first-Split s j hit in
          (
            record {
              front = x ∷ c.front;
              mark = c.mark;
              back = c.back;
              whole = ap (λ t. x ∷ t) c.whole;
              at = ground (arith, c.at);
              passes = c.passes;
            },
            (e, fails),
          )
    ]
  ]

  pub find_last-none : (s : Bytes) → Fails p s → find_last p s ≡ none
  unfolding find_last
  find_last-none [] h = refl
  find_last-none (x ∷ s) (hx, h) = rw (find_last-none s h, hx)

  pub find_last-append :
      (a : Bytes) (c : ℕ) (b : Bytes)
      → Fails p b
      → p c ≡ true
      → find_last p (a ++ c ∷ b) ≡ some (length a)
  unfolding find_last
  find_last-append [] c b h hc = rw (find_last-none b h, hc)
  find_last-append (x ∷ a) c b h hc = rw (find_last-append a c b h hc)

  pub find_last-none_iff : (s : Bytes) → find_last p s ≡ none → Fails p s
  unfolding find_last
  find_last-none_iff [] h = tt
  find_last-none_iff (x ∷ s) h = ground (arith, find_last-none_iff s)

  pub find_last-Split :
      (s : Bytes) (i : ℕ) → find_last p s ≡ some i → (c : Split p s i) × Fails p c.back
  unfolding find_last
  find_last-Split [] i h = cc
  find_last-Split (x ∷ s) i h = elim (Option-cases (find_last p s)) [
    | inl miss ↦ elim (Bool-cases (p x)) [
      | inl e ↦ (
        record { front = []; mark = x; back = s; whole = refl; at = ground arith; passes = e },
        find_last-none_iff s miss,
      )
      | inr e ↦ absurd (ground arith)
    ]
    | inr (j, hit) ↦
        let (c, fails) = find_last-Split s j hit in
        (
          record {
            front = x ∷ c.front;
            mark = c.mark;
            back = c.back;
            whole = ap (λ t. x ∷ t) c.whole;
            at = ground (arith, c.at);
            passes = c.passes;
          },
          fails,
        )
  ]

module _ {ℓ} {A : Type ℓ} where
  pub take-length-append : (a b : List A) → take (length a) (a ++ b) ≡ a
  take-length-append [] b = refl
  take-length-append (x ∷ a) b = ap (λ t. x ∷ t) (take-length-append a b)

  pub drop-length-append : (a b : List A) → drop (length a) (a ++ b) ≡ b
  drop-length-append [] b = refl
  drop-length-append (x ∷ a) b = drop-length-append a b

pub starts_with-append : (a b : Bytes) → starts_with (a ++ b) a ≡ true
unfolding starts_with
starts_with-append [] b = refl
starts_with-append (x ∷ a) b = ground (arith, starts_with-append a b)

pub starts_with-split : (s t : Bytes) → starts_with s t ≡ true → s ≡ t ++ drop (length t) s
unfolding starts_with
starts_with-split s [] h = refl
starts_with-split [] (y ∷ t) h = cc
starts_with-split (x ∷ s) (y ∷ t) h = ground (arith, starts_with-split s t)

module _ {ℓ} {A : Type ℓ} where
  drop-suc : (a : List A) (c : A) (b : List A) → drop (suc (length a)) (a ++ c ∷ b) ≡ b
  drop-suc [] c b = refl
  drop-suc (x ∷ a) c b = drop-suc a c b

  pub drop_past : (a : List A) (c : A) (b : List A) → drop (length a + 1) (a ++ c ∷ b) ≡ b
  drop_past a c b = rw add-one (drop-suc a c b)

-- `Fails` by evaluation, for a text at hand.
pub Fails-all_of : (p : ℕ → Bool) (s : Bytes) → all_of (λ c. not (p c)) s ≡ true → Fails p s
Fails-all_of p [] h = tt
Fails-all_of p (c ∷ s) h = elim (Bool-cases (p c)) [
  | inl e ↦ absurd (ground arith)
  | inr e ↦ (e, Fails-all_of p s (ground arith))
]
