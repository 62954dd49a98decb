-- ===== src/Core/Percent/Namespace.antt =====
-- `percent_encode_purl_namespace` of src/core/percent.cpp against a byte by byte description.
use bomwerk.Prelude.{
  ℕ, zero, suc, ◌+◌, ◌<◌, ◌≡◌, refl, ap, sym, ◌∙◌, Bool, inl, inr, [], ◌∷◌, ◌++◌, append_assoc,
  arith, Bytes, IsByte, All, Fails, length, length-append, take-length-append, find_first,
  find_first-none, find_first-append, find_first-none_iff, find_first-Split, drop_past, Bool-cases,
  ==_iff, Option-cases, ◌==◌, if◌then◌else◌,
}
use bomwerk.Core.Percent.{
  encoded_char, percent_encode, namespace_loop, percent_encode_purl_namespace, percent_decode,
}
use bomwerk.Core.Percent.RoundTrip.{decode_plain, decode_char}

abbrev is_slash : ℕ → Bool
is_slash c = c == b'/'

-- Every byte but a slash encoded.
unfoldable pub slashes_kept : Bytes → Bytes
slashes_kept [] = []
slashes_kept (c ∷ s) = (if is_slash c then c ∷ [] else encoded_char c) ++ slashes_kept s

segment :
    (a s : Bytes) → Fails is_slash a → slashes_kept (a ++ s) ≡ percent_encode a ++ slashes_kept s
unfolding slashes_kept percent_encode
segment [] s h = refl
segment (c ∷ a) s (hc, h) = rw (hc, segment a s h, append_assoc)

last_segment : (a : Bytes) → Fails is_slash a → slashes_kept a ≡ percent_encode a
unfolding slashes_kept percent_encode
last_segment [] h = refl
last_segment (c ∷ a) (hc, h) = rw (hc, last_segment a h)

loop_step :
    (fuel : ℕ) (a b : Bytes)
    → Fails is_slash a
    → namespace_loop (suc fuel) (a ++ b'/' ∷ b) ≡ percent_encode a ++ b'/' ∷ namespace_loop fuel b
unfolding namespace_loop
loop_step fuel a b h = rw (
  find_first-append is_slash a b'/' b h refl,
  namespace_loop,
  take-length-append a (b'/' ∷ b),
  drop_past a b'/' b,
)

loop_last :
    (fuel : ℕ) (a : Bytes) → Fails is_slash a → namespace_loop (suc fuel) a ≡ percent_encode a
unfolding namespace_loop
loop_last fuel a h = rw (find_first-none is_slash a h, namespace_loop)

loop_enough : (fuel : ℕ) (s : Bytes) → length s < fuel → namespace_loop fuel s ≡ slashes_kept s
unfolding slashes_kept
loop_enough zero s h = absurd (omega arith)
loop_enough (suc fuel) s h = elim (Option-cases (find_first is_slash s)) [
  | inl miss ↦
      let blank = find_first-none_iff is_slash s miss in
      loop_last fuel s blank ∙ sym (last_segment s blank)
  | inr (i, hit) ↦
      let (c, blank) = find_first-Split is_slash s i hit in
      let whole : s ≡ c.front ++ b'/' ∷ c.back =
        c.whole ∙ ap (λ m. c.front ++ m ∷ c.back) ((==_iff _ _).0 c.passes) in
      let shorter : length c.back < fuel =
        omega (arith, ap length whole, length-append c.front (b'/' ∷ c.back)) in
      rw whole (
        loop_step fuel c.front c.back blank
        ∙ ap (λ t. percent_encode c.front ++ b'/' ∷ t) (loop_enough fuel c.back shorter)
        ∙ sym (segment c.front (b'/' ∷ c.back) blank))
]

-- The loop over the segments of a namespace encodes every byte but the slashes, which stay.
pub percent_encode_purl_namespace-slashes_kept :
    (s : Bytes) → percent_encode_purl_namespace s ≡ slashes_kept s
unfolding percent_encode_purl_namespace
percent_encode_purl_namespace-slashes_kept s = loop_enough (length s + 1) s (omega arith)

decode_slashes_kept : (s : Bytes) → All IsByte s → percent_decode (slashes_kept s) ≡ s
unfolding slashes_kept
decode_slashes_kept [] h = unfold percent_decode in refl
decode_slashes_kept (c ∷ s) (hc, h) = elim (Bool-cases (is_slash c)) [
  | inl e ↦ rw e (
      decode_plain c (slashes_kept s) (ground (arith, e))
      ∙ ap (λ t. c ∷ t) (decode_slashes_kept s h))
  | inr e ↦ rw e (decode_char c (slashes_kept s) hc ∙ ap (λ t. c ∷ t) (decode_slashes_kept s h))
]

-- Decoding undoes the encoding of a namespace.
pub percent_decode-percent_encode_purl_namespace :
    (s : Bytes) → All IsByte s → percent_decode (percent_encode_purl_namespace s) ≡ s
percent_decode-percent_encode_purl_namespace s h =
    ap percent_decode (percent_encode_purl_namespace-slashes_kept s) ∙ decode_slashes_kept s h
