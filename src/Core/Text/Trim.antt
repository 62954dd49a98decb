-- ===== src/Core/Text/Trim.antt =====
-- `trimmed_view` of src/core/text.cpp against the text between two runs of whitespace.
use bomwerk.Prelude.{
  ℕ, ◌+◌, ◌-◌, ◌≡◌, refl, ap, sym, ◌∙◌, ◌⊎◌, true, some, inl, inr, [], ◌∷◌, ◌++◌, append_assoc,
  append-nil, subst, arith, Bytes, length, length-append, take, Fails, All-append,
  drop-length-append, take-length-append, find_first, find_last, find_first-none, find_first-append,
  find_last-append, find_first-Split, find_last-Split, find_first-none_iff, find_last-none_iff,
  Option-cases,
}
use bomwerk.Core.Text.{not_whitespace, trimmed}

abbrev pub IsBlank : Bytes → Type 0
IsBlank = Fails not_whitespace

-- A text that begins and ends with a byte other than whitespace.
pub record IsTight (t : Bytes) : Type 0 where
  pub head : ℕ
  pub tail : Bytes
  pub begins : t ≡ head ∷ tail
  pub head_solid : not_whitespace head ≡ true
  pub front : Bytes
  pub last : ℕ
  pub ends : t ≡ front ++ last ∷ []
  pub last_solid : not_whitespace last ≡ true

abbrev pub IsCore : Bytes → Type 0
IsCore t = (t ≡ []) ⊎ IsTight t

take_exact : (n : ℕ) (t b : Bytes) → n ≡ length t → take n (t ++ b) ≡ t
take_exact n t b e = rw e (take-length-append t b)

first_solid :
    (a t b : Bytes)
    → IsBlank a
    → (w : IsTight t) → find_first not_whitespace (a ++ (t ++ b)) ≡ some (length a)
first_solid a t b ha w =
    rw w.begins (find_first-append not_whitespace a w.head (w.tail ++ b) ha w.head_solid)

last_solid_at :
    (a t b : Bytes)
    → IsBlank b
    → (w : IsTight t) → find_last not_whitespace (a ++ (t ++ b)) ≡ some (length a + length w.front)
last_solid_at a t b hb w =
    let regroup : a ++ (t ++ b) ≡ (a ++ w.front) ++ w.last ∷ b =
      ap (λ u. a ++ (u ++ b)) w.ends
      ∙ ap (λ u. a ++ u) (append_assoc w.front (w.last ∷ []) b)
      ∙ sym (append_assoc a w.front (w.last ∷ b)) in
    ap (find_last not_whitespace) regroup
    ∙ find_last-append not_whitespace (a ++ w.front) w.last b hb w.last_solid
    ∙ ap some (length-append a w.front)

trimmed_tight : (a t b : Bytes) → IsBlank a → IsBlank b → IsTight t → trimmed (a ++ (t ++ b)) ≡ t
unfolding trimmed
trimmed_tight a t b ha hb w =
    rw (first_solid a t b ha w, last_solid_at a t b hb w, trimmed, drop-length-append a (t ++ b))
      (take_exact (length a + length w.front - length a + 1) t b
        (omega (arith, ap length w.ends, length-append w.front (w.last ∷ []))))

pub trimmed_blank : (s : Bytes) → IsBlank s → trimmed s ≡ []
unfolding trimmed
trimmed_blank s h = rw (find_first-none not_whitespace s h, trimmed)

-- Whatever whitespace stands around a text that begins and ends with another byte, or around the
-- empty text, trimming gives the text back.
pub trimmed_unique :
    (a t b : Bytes) → IsBlank a → IsBlank b → IsCore t → trimmed (a ++ (t ++ b)) ≡ t
trimmed_unique a t b ha hb (inl e) = rw e (trimmed_blank (a ++ b) (All-append _ a b ha hb))
trimmed_unique a t b ha hb (inr w) = trimmed_tight a t b ha hb w

pub record Parts (s : Bytes) : Type 0 where
  pub front : Bytes
  pub core : Bytes
  pub back : Bytes
  pub whole : s ≡ front ++ (core ++ back)
  pub front_blank : IsBlank front
  pub back_blank : IsBlank back
  pub core_fits : IsCore core

head_of : (x m : ℕ) (s f b : Bytes) → x ∷ s ≡ f ++ m ∷ b → (u : Bytes) × (f ++ m ∷ [] ≡ x ∷ u)
head_of x m s [] b h = ([], cc)
head_of x m s (y ∷ f) b h = (f ++ m ∷ [], cc)

Parts-from :
    (front : Bytes) (x : ℕ) (s : Bytes)
    → IsBlank front
    → not_whitespace x ≡ true
    → Parts (front ++ x ∷ s)
Parts-from front x s hf hx = elim (Option-cases (find_last not_whitespace (x ∷ s))) [
  | inl miss ↦ absurd (grind (arith, find_last-none_iff not_whitespace (x ∷ s) miss))
  | inr (j, hit) ↦
      let (d, blank) = find_last-Split not_whitespace (x ∷ s) j hit in
      let (u, e) = head_of x d.mark s d.front d.back d.whole in
      record {
        front = front;
        core = d.front ++ d.mark ∷ [];
        back = d.back;
        whole = ap (λ t. front ++ t) (d.whole ∙ sym (append_assoc d.front (d.mark ∷ []) d.back));
        front_blank = hf;
        back_blank = blank;
        core_fits = inr (record {
          head = x;
          tail = u;
          begins = e;
          head_solid = hx;
          front = d.front;
          last = d.mark;
          ends = refl;
          last_solid = d.passes;
        });
      }
]

Parts-of : (s : Bytes) → Parts s
Parts-of s = elim (Option-cases (find_first not_whitespace s)) [
  | inl miss ↦ record {
    front = s;
    core = [];
    back = [];
    whole = sym (append-nil s);
    front_blank = find_first-none_iff not_whitespace s miss;
    back_blank = tt;
    core_fits = inl refl;
  }
  | inr (i, hit) ↦
      let (c, blank) = find_first-Split not_whitespace s i hit in
      subst Parts (sym c.whole) (Parts-from c.front c.mark c.back blank c.passes)
]

trimmed_core : (s : Bytes) (p : Parts s) → trimmed s ≡ p.core
trimmed_core s p =
    ap trimmed p.whole ∙ trimmed_unique p.front p.core p.back p.front_blank p.back_blank p.core_fits

-- Trimming takes whitespace away at the two ends and nothing else: the text is a blank front, the
-- trimmed text and a blank back, and the trimmed text is empty or begins and ends with another
-- byte.
pub trimmed_lem :
    (s : Bytes)
    → (front back : Bytes) × (s ≡ front ++ (trimmed s ++ back))
      × IsBlank front
      × IsBlank back
      × IsCore (trimmed s)
trimmed_lem s =
    let p = Parts-of s in
    let e = trimmed_core s p in
    (
      p.front,
      p.back,
      p.whole ∙ ap (λ t. p.front ++ (t ++ p.back)) (sym e),
      p.front_blank,
      p.back_blank,
      rw e p.core_fits,
    )

-- Trimming twice is trimming once.
pub trimmed_twice : (s : Bytes) → trimmed (trimmed s) ≡ trimmed s
trimmed_twice s =
    ap trimmed (sym (append-nil (trimmed s)))
    ∙ trimmed_unique [] (trimmed s) [] tt tt
        (rw (trimmed_core s (Parts-of s)) (Parts-of s).core_fits)
