-- ===== src/Core/Purl/Parse/Shape.antt =====
-- What `find_separators` of src/core/purl.cpp finds in a text of a known shape.
use bomwerk.Prelude.{
  ℕ, ◌+◌, ◌≡◌, refl, ◌∙◌, Bool, true, false, Option, none, some, [], ◌∷◌, ◌++◌, arith, Bytes, Fails,
  length, ◌==◌,
}
use bomwerk.Core.Purl.{
  is_purl_whitespace, PurlSeparators, note_separator, separators_from, find_separators,
}

abbrev pub is_colon : ℕ → Bool
is_colon c = c == b':'

abbrev pub is_slash : ℕ → Bool
is_slash c = c == b'/'

abbrev pub NoSpace : Bytes → Type 0
NoSpace = Fails is_purl_whitespace

abbrev pub found : Option ℕ → Option ℕ → PurlSeparators
found scheme type = record {
  scheme_separator = scheme;
  type_separator = type;
  has_whitespace = false;
}

whitespace_found :
    (a : Bytes) (c : ℕ) (b : Bytes) (i : ℕ) (separators : PurlSeparators)
    → NoSpace a
    → is_purl_whitespace c ≡ true
    → (separators_from i separators (a ++ c ∷ b)).has_whitespace ≡ true
unfolding separators_from
whitespace_found [] c b i separators h hc = rw hc
whitespace_found (x ∷ a) c b i separators (hx, h) hc =
    rw hx (whitespace_found a c b (i + 1) (note_separator i x separators) h hc)

no_colon :
    (a : Bytes) (i : ℕ)
    → NoSpace a
    → Fails is_colon a
    → separators_from i (found none none) a ≡ found none none
unfolding separators_from note_separator
no_colon [] i h hc = refl
no_colon (x ∷ a) i (hx, h) (hc, hcs) = ground (arith, hx, hc, no_colon a (i + 1) h hcs)

past_colon :
    (a b : Bytes) (i j : ℕ)
    → j ≡ i + length a
    → NoSpace a
    → Fails is_colon a
    → separators_from i (found none none) (a ++ b':' ∷ b)
      ≡ separators_from (j + 1) (found (some j) none) b
unfolding separators_from note_separator
past_colon [] b i j e h hc = let e' : j ≡ i = omega arith in rw e'
past_colon (x ∷ a) b i j e (hx, h) (hc, hcs) =
    ground (arith, hx, hc, past_colon a b (i + 1) j (omega arith) h hcs)

no_slash :
    (k : ℕ) (b : Bytes) (i : ℕ)
    → NoSpace b
    → Fails is_slash b
    → separators_from i (found (some k) none) b ≡ found (some k) none
unfolding separators_from note_separator
no_slash k [] i h hs = refl
no_slash k (x ∷ b) i (hx, h) (hs, hss) = ground (arith, hx, hs, no_slash k b (i + 1) h hss)

past_slash :
    (k : ℕ) (t r : Bytes) (i j : ℕ)
    → j ≡ i + length t
    → NoSpace t
    → Fails is_slash t
    → separators_from i (found (some k) none) (t ++ b'/' ∷ r)
      ≡ separators_from (j + 1) (found (some k) (some j)) r
unfolding separators_from note_separator
past_slash k [] r i j e h hs = let e' : j ≡ i = omega arith in rw e'
past_slash k (x ∷ t) r i j e (hx, h) (hs, hss) =
    ground (arith, hx, hs, past_slash k t r (i + 1) j (omega arith) h hss)

all_found :
    (k m : ℕ) (r : Bytes) (i : ℕ)
    → NoSpace r
    → separators_from i (found (some k) (some m)) r ≡ found (some k) (some m)
unfolding separators_from note_separator
all_found k m [] i h = refl
all_found k m (x ∷ r) i (hx, h) = ground (arith, hx, all_found k m r (i + 1) h)

-- The three shapes of a text without whitespace.
pub find_separators-none :
    (a : Bytes) → NoSpace a → Fails is_colon a → find_separators a ≡ found none none
unfolding find_separators
find_separators-none a h hc = no_colon a 0 h hc

pub find_separators_scheme :
    (a b : Bytes)
    → NoSpace a
    → NoSpace b
    → Fails is_colon a
    → Fails is_slash b
    → find_separators (a ++ b':' ∷ b) ≡ found (some (length a)) none
unfolding find_separators
find_separators_scheme a b ha hb hc hs =
    past_colon a b 0 (length a) (omega arith) ha hc ∙ no_slash (length a) b (length a + 1) hb hs

pub find_separators_both :
    (a t r : Bytes)
    → NoSpace a
    → NoSpace t
    → NoSpace r
    → Fails is_colon a
    → Fails is_slash t
    → find_separators (a ++ b':' ∷ (t ++ b'/' ∷ r))
      ≡ found (some (length a)) (some (length a + 1 + length t))
unfolding find_separators
find_separators_both a t r ha ht hr hc hs =
    past_colon a (t ++ b'/' ∷ r) 0 (length a) (omega arith) ha hc
    ∙ past_slash (length a) t r (length a + 1) (length a + 1 + length t) refl ht hs
    ∙ all_found (length a) (length a + 1 + length t) r (length a + 1 + length t + 1) hr

pub find_separators_whitespace :
    (a : Bytes) (c : ℕ) (b : Bytes)
    → NoSpace a
    → is_purl_whitespace c ≡ true
    → (find_separators (a ++ c ∷ b)).has_whitespace ≡ true
unfolding find_separators
find_separators_whitespace a c b h hc = whitespace_found a c b 0 (found none none) h hc
