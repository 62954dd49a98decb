-- ===== src/Vuln/Endpoints/Subpath.antt =====
-- `is_safe_registry_subpath` of src/vuln/endpoints.cpp against the paths that it is for.
use bomwerk.Prelude.{
  ℕ, zero, suc, ◌+◌, ◌<◌, ◌≡◌, ◌≢◌, ◌↔◌, refl, sym, ap, ap₂, ◌∙◌, Bool, true, false, not, ◌&&◌,
  none, some, [], ◌∷◌, ◌++◌, arith, inl, inr, Bytes, codes, equal, equal_iff, is_empty, find_first,
  find_first-none, find_first-append, find_first-Split, Fails, All, all_of, length, length-append,
  take, drop, take-length-append, drop_past, Option-cases, Bool-cases, subst,
}
use bomwerk.Vuln.Endpoints.{
  is_separator, is_allowed, is_safe_segment, safe_segments, is_safe_registry_subpath,
}

-- A segment: lowercase letters, digits and `._+-`, not empty, and neither of the dot segments.
pub record IsSegment (s : Bytes) : Type 0 where
  pub filled : s ≢ []
  pub not_dot : s ≢ codes "."
  pub not_dots : s ≢ codes ".."
  pub allowed : All (λ c. is_allowed c ≡ true) s

-- One segment or more, with a slash between them.
pub data IsSubpath : Bytes → Type 0 where
  one : (s : Bytes) → IsSegment s → IsSubpath s
  more : (s rest : Bytes) → IsSegment s → IsSubpath rest → IsSubpath (s ++ b'/' ∷ rest)

all_of_iff : (p : ℕ → Bool) (s : Bytes) → (all_of p s ≡ true) ↔ All (λ c. p c ≡ true) s
all_of_iff p [] = (λ _. tt, λ _. refl)
all_of_iff p (c ∷ s) =
    let (to, from) = all_of_iff p s in
    (
      λ h. elim (Bool-cases (p c)) [ inl e ↦ (e, to (rw e at h)) | inr e ↦ absurd (ground arith) ],
      λ (hc, h). rw hc (from h),
    )

differs : (s t : Bytes) → (not (equal s t) ≡ true) ↔ (s ≢ t)
differs s t = elim (Bool-cases (equal s t)) [
  | inl e ↦ (λ h. absurd (ground arith), λ h. absurd (h ((equal_iff s t).0 e)))
  | inr e ↦ (λ h same. absurd (ground (arith, (equal_iff s t).1 same)), λ h. rw e)
]

filled_iff : (s : Bytes) → (not (is_empty s) ≡ true) ↔ (s ≢ [])
filled_iff [] = (λ h. cc, λ h. absurd (h refl))
filled_iff (x ∷ s) = (λ h e. cc, λ h. refl)

split_and : (a b : Bool) → (a && b) ≡ true → (a ≡ true) × (b ≡ true)
split_and true b h = (refl, h)
split_and false b h = cc

pub is_safe_segment_iff : (s : Bytes) → (is_safe_segment s ≡ true) ↔ IsSegment s
unfolding is_safe_segment
is_safe_segment_iff s = (
  λ h.
      let (a, h1) = split_and (not (is_empty s)) _ h in
      let (b, h2) = split_and (not (equal s (codes "."))) _ h1 in
      let (c, d) = split_and (not (equal s (codes ".."))) _ h2 in
      record {
        filled = (filled_iff s).0 a;
        not_dot = (differs s (codes ".")).0 b;
        not_dots = (differs s (codes "..")).0 c;
        allowed = (all_of_iff is_allowed s).0 d;
      },
  λ g. rw (
    (filled_iff s).1 g.filled,
    (differs s (codes ".")).1 g.not_dot,
    (differs s (codes "..")).1 g.not_dots,
    (all_of_iff is_allowed s).1 g.allowed,
  ),
)

no_separator : (s : Bytes) → All (λ c. is_allowed c ≡ true) s → Fails is_separator s
no_separator [] h = tt
no_separator (c ∷ s) (hc, h) = (ground arith, no_separator s h)

last_segment :
    (fuel : ℕ) (s : Bytes)
    → s ≢ []
    → find_first is_separator s ≡ none
    → safe_segments (suc fuel) s ≡ is_safe_segment s
unfolding safe_segments
last_segment fuel [] h e = absurd (h refl)
last_segment fuel (x ∷ s) h e = rw (e, safe_segments)

front_segment :
    (fuel : ℕ) (s : Bytes) (i : ℕ)
    → find_first is_separator s ≡ some i
    → is_safe_segment (take i s) ≡ true
    → safe_segments (suc fuel) s ≡ safe_segments fuel (drop (i + 1) s)
unfolding safe_segments
front_segment fuel [] i e h = absurd (ground (arith, find_first-none is_separator []))
front_segment fuel (x ∷ s) i e h = rw (e, safe_segments) (rw (h, safe_segments))

bad_segment :
    (fuel : ℕ) (s : Bytes) (i : ℕ)
    → find_first is_separator s ≡ some i
    → is_safe_segment (take i s) ≡ false
    → safe_segments (suc fuel) s ≡ false
unfolding safe_segments
bad_segment fuel [] i e h = refl
bad_segment fuel (x ∷ s) i e h = rw (e, safe_segments) (rw (h, safe_segments))

complete : {s : Bytes} (fuel : ℕ) → IsSubpath s → length s < fuel → safe_segments fuel s ≡ true
complete zero p h = absurd (omega arith)
complete (suc fuel) (one s g) h =
    last_segment fuel s g.filled (find_first-none is_separator s (no_separator s g.allowed))
    ∙ (is_safe_segment_iff s).1 g
complete (suc fuel) (more s rest g p) h =
    let at = find_first-append is_separator s b'/' rest (no_separator s g.allowed) refl in
    let front = ap is_safe_segment (take-length-append s (b'/' ∷ rest)) in
    front_segment fuel (s ++ b'/' ∷ rest) (length s) at (front ∙ (is_safe_segment_iff s).1 g)
    ∙ ap (safe_segments fuel) (drop_past s b'/' rest)
    ∙ complete fuel p (omega (arith, length-append s (b'/' ∷ rest)))

nothing_left : (fuel : ℕ) → safe_segments fuel [] ≡ false
unfolding safe_segments
nothing_left zero = refl
nothing_left (suc fuel) = refl

no_fuel : (s : Bytes) → safe_segments 0 s ≡ true → ⊥
unfolding safe_segments
no_fuel s h = cc

cons-ne-nil : (x : ℕ) (s : Bytes) → x ∷ s ≢ []
cons-ne-nil x s e = cc

sound : (fuel : ℕ) (s : Bytes) → safe_segments fuel s ≡ true → IsSubpath s
sound zero s h = absurd (no_fuel s h)
sound (suc fuel) [] h = absurd (ground (arith, nothing_left (suc fuel)))
sound (suc fuel) (x ∷ s) h = elim (Option-cases (find_first is_separator (x ∷ s))) [
  | inl none_left ↦ one (x ∷ s) (
      (is_safe_segment_iff (x ∷ s)).0
        (sym (last_segment fuel (x ∷ s) (cons-ne-nil x s) none_left) ∙ h))
  | inr (i, at) ↦ elim (Bool-cases (is_safe_segment (take i (x ∷ s)))) [
    | inl safe ↦
        let (c, before) = find_first-Split is_separator (x ∷ s) i at in
        let mark : c.mark ≡ b'/' = ground (arith, c.passes) in
        let whole : x ∷ s ≡ c.front ++ b'/' ∷ c.back =
          c.whole ∙ ap (λ m. c.front ++ m ∷ c.back) mark in
        let front : take i (x ∷ s) ≡ c.front =
          ap₂ take (sym c.at) whole ∙ take-length-append c.front (b'/' ∷ c.back) in
        let back : drop (i + 1) (x ∷ s) ≡ c.back =
          ap₂ (λ (n : ℕ) t. drop (n + 1) t) (sym c.at) whole ∙ drop_past c.front b'/' c.back in
        let rest_safe =
          sym (ap (safe_segments fuel) back) ∙ sym (front_segment fuel (x ∷ s) i at safe) ∙ h in
        subst IsSubpath (sym whole) (
          more c.front c.back
            ((is_safe_segment_iff c.front).0 (sym (ap is_safe_segment front) ∙ safe))
            (sound fuel c.back rest_safe))
    | inr unsafe ↦ absurd (ground (arith, bad_segment fuel (x ∷ s) i at unsafe))
  ]
]

pub is_safe_registry_subpath_iff : (s : Bytes) → (is_safe_registry_subpath s ≡ true) ↔ IsSubpath s
unfolding is_safe_registry_subpath
is_safe_registry_subpath_iff s =
    (sound (length s + 1) s, λ p. complete (length s + 1) p (omega arith))
