-- ===== src/Core/Sha256/Digest.antt =====
-- `Sha256::digest` of src/core/sha256.cpp against the digest of a padded message.
use bomwerk.Prelude.{
  ℕ, zero, suc, ◌+◌, ◌-◌, ◌*◌, ◌/◌, ◌%◌, ◌^◌, ◌≤◌, ◌≡◌, refl, sym, ap, ap₂, ◌∙◌, false, List, [],
  ◌∷◌, ◌++◌, arith, append-nil, append_assoc, Bytes, ◌==◌, length, drop, length-append, length-drop,
  ==_iff, subst,
}
use bomwerk.Core.Sha256.{
  Sha256, initial_state, new_sha256, update, zeros, pad_zeros, length_suffix, digest_tail,
  registers_bytes, digest, sha256,
}
use bomwerk.Core.Sha256.Blocks.{
  fold_blocks, fold_blocks-append, fold_blocks-add, compress_blocks_lem, drop-append,
}
use bomwerk.Core.Sha256.Stream.{Buffers}
use bomwerk.Core.Sha256.Update.{update-Buffers, update-total}

-- FIPS 180-4, section 5.1.1: the bit 1, the fewest zero bits, and the length in bits.
abbrev pub padding : Bytes → Bytes
padding m = 0x80 ∷ zeros ((119 - length m % 64) % 64) ++ length_suffix (length m * 8 % 2 ^ 64)

unfoldable pub padded : Bytes → Bytes
padded m = m ++ padding m

-- Section 6.2: every block of the padded message is compressed into the initial state.
pub message_digest : Bytes → Bytes
message_digest m = registers_bytes (fold_blocks (length (padded m) / 64) initial_state (padded m))

pub length-zeros : (n : ℕ) → length (zeros n) ≡ n
unfolding zeros
length-zeros zero = refl
length-zeros (suc n) = omega (arith, length-zeros n)

pub length-padded : (m : Bytes) → length (padded m) % 64 ≡ 0
unfolding padded length_suffix
length-padded m =
    let count = (119 - length m % 64) % 64 in
    omega (
      arith,
      length-append m (padding m),
      length-append (zeros count) (length_suffix (length m * 8 % 2 ^ 64)),
      length-zeros count,
    )

padding_done : (fuel : ℕ) (tail : Bytes) → length tail % 64 ≡ 56 → pad_zeros fuel tail ≡ tail
unfolding pad_zeros
padding_done zero tail h = refl
padding_done (suc fuel) tail h = rw ((==_iff (length tail % 64) 56).1 h, pad_zeros)

padding_step :
    (fuel : ℕ) (tail : Bytes)
    → (length tail % 64 == 56) ≡ false
    → pad_zeros (suc fuel) tail ≡ pad_zeros fuel (tail ++ 0 ∷ [])
unfolding pad_zeros
padding_step fuel tail h = rw (h, pad_zeros)

-- The loop ends by its test within the fuel.
pad_zeros_lem :
    (k fuel : ℕ) (tail : Bytes)
    → k ≤ fuel
    → (120 - length tail % 64) % 64 ≡ k
    → pad_zeros fuel tail ≡ tail ++ zeros k
unfolding zeros
pad_zeros_lem zero fuel tail h e = padding_done fuel tail (omega arith) ∙ sym (append-nil tail)
pad_zeros_lem (suc k) zero tail h e = absurd (omega arith)
pad_zeros_lem (suc k) (suc fuel) tail h e =
    padding_step fuel tail (ground arith)
    ∙ pad_zeros_lem k fuel (tail ++ 0 ∷ []) (omega arith)
        (omega (arith, length-append tail (0 ∷ [])))
    ∙ append_assoc tail (0 ∷ []) (zeros k)

module _ {s : Sha256} {m : Bytes} (h : Buffers s m)
    (total : s.total_bytes ≡ length m % 2 ^ 64) where
  pending_size : length (drop (length m / 64 * 64) m) ≡ length m % 64
  pending_size = omega (arith, length-drop (length m / 64 * 64) m)

  digest_tail_lem : digest_tail s ≡ drop (length m / 64 * 64) m ++ padding m
  unfolding digest_tail
  digest_tail_lem =
      let kept = drop (length m / 64 * 64) m in
      let started : length (kept ++ 0x80 ∷ []) ≡ length m % 64 + 1 =
        omega (arith, length-append kept (0x80 ∷ []), pending_size) in
      let bits : s.total_bytes * 8 % 2 ^ 64 ≡ length m * 8 % 2 ^ 64 = omega (arith, total) in
      let count = (119 - length m % 64) % 64 in
      rw (h.pending, bits)
        (ap (λ t. t ++ length_suffix (length m * 8 % 2 ^ 64))
            (pad_zeros_lem count 64 (kept ++ 0x80 ∷ []) (omega arith) (omega (arith, started)))
          ∙ append_assoc (kept ++ 0x80 ∷ []) (zeros count) (length_suffix (length m * 8 % 2 ^ 64))
          ∙ append_assoc kept (0x80 ∷ []) (zeros count ++ length_suffix (length m * 8 % 2 ^ 64)))

  pub digest-Buffers : digest s ≡ message_digest m
  unfolding digest message_digest padded
  digest-Buffers =
      let kept = drop (length m / 64 * 64) m in
      let tail = kept ++ padding m in
      let counts : length (m ++ padding m) / 64 ≡ length m / 64 + length tail / 64 =
        omega (arith, length-append m (padding m), length-append kept (padding m), pending_size) in
      rw
        (
          digest_tail_lem,
          compress_blocks_lem (length tail) s.state tail (omega arith),
          h.taken,
          counts,
        )
        (ap registers_bytes (
          sym (
            fold_blocks-add (length m / 64) (length tail / 64) initial_state (m ++ padding m)
            ∙ ap₂ (fold_blocks (length tail / 64))
                (fold_blocks-append (length m / 64) initial_state m (padding m) (omega arith))
                (drop-append (length m / 64 * 64) m (padding m) (omega arith)))))

  -- The padding and the length stay within the array of two blocks and fill whole blocks.
  pub digest_tail_bounds : (length (digest_tail s) ≤ 128) × (length (digest_tail s) % 64 ≡ 0)
  unfolding length_suffix
  digest_tail_bounds =
      let kept = drop (length m / 64 * 64) m in
      let count = (119 - length m % 64) % 64 in
      rw digest_tail_lem (
        omega (
          arith,
          length-append kept (padding m),
          length-append (zeros count) (length_suffix (length m * 8 % 2 ^ 64)),
          length-zeros count,
          pending_size,
        ))

-- Any number of calls of `update`, one after the other.
pub feed : Sha256 → List Bytes → Sha256
feed s [] = s
feed s (b ∷ rest) = feed (update s b) rest

abbrev pub concat : List Bytes → Bytes
concat [] = []
concat (b ∷ rest) = b ++ concat rest

feed-Buffers :
    (s : Sha256) (m : Bytes) (slices : List Bytes)
    → Buffers s m
    → Buffers (feed s slices) (m ++ concat slices)
unfolding feed
feed-Buffers s m [] h = subst (Buffers s) (sym (append-nil m)) h
feed-Buffers s m (b ∷ rest) h =
    subst (Buffers _) (append_assoc m b (concat rest))
      (feed-Buffers (update s b) (m ++ b) rest (update-Buffers b h))

feed-total :
    (s : Sha256) (m : Bytes) (slices : List Bytes)
    → s.total_bytes ≡ length m % 2 ^ 64
    → (feed s slices).total_bytes ≡ length (m ++ concat slices) % 2 ^ 64
unfolding feed
feed-total s m [] h = rw (append-nil m) h
feed-total s m (b ∷ rest) h =
    feed-total (update s b) (m ++ b) rest (omega (arith, update-total s b, length-append m b, h))
    ∙ ap (λ t. length t % 2 ^ 64) (append_assoc m b (concat rest))

new_sha256-Buffers : Buffers new_sha256 []
unfolding fold_blocks zeros
new_sha256-Buffers = record { taken = refl; pending = refl; buffered = refl; room = refl }

-- However a message is sliced into calls of `update`, empty slices included, the digest is that of
-- the whole message as FIPS 180-4 pads it and compresses its blocks; the length in the padding is
-- that of the message in bits, modulo 2 ^ 64.
pub digest-feed :
    (slices : List Bytes) → digest (feed new_sha256 slices) ≡ message_digest (concat slices)
digest-feed slices =
    digest-Buffers (feed-Buffers new_sha256 [] slices new_sha256-Buffers)
      (feed-total new_sha256 [] slices refl)

-- After any calls of `update`, the padded tail that `digest` writes fits in its array of two blocks,
-- and it consists of whole blocks.
pub digest_tail-feed :
    (slices : List Bytes)
    → (length (digest_tail (feed new_sha256 slices)) ≤ 128)
      × (length (digest_tail (feed new_sha256 slices)) % 64 ≡ 0)
digest_tail-feed slices =
    digest_tail_bounds (feed-Buffers new_sha256 [] slices new_sha256-Buffers)
      (feed-total new_sha256 [] slices refl)

pub sha256_lem : (m : Bytes) → sha256 m ≡ message_digest m
unfolding sha256 feed
sha256_lem m = digest-feed (m ∷ []) ∙ ap message_digest (append-nil m)
