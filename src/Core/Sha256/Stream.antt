-- ===== src/Core/Sha256/Stream.antt =====
-- `Sha256::update` of src/core/sha256.cpp: what the object holds of the bytes fed so far.
use bomwerk.Prelude.{
  ℕ, suc, ◌+◌, ◌*◌, ◌/◌, ◌%◌, ◌≤◌, ◌≡◌, refl, sym, ap, ap₂, ◌∙◌, [], ◌∷◌, ◌++◌, arith, Bytes,
  length, take, drop, length-append, length-drop, overwrite, length-overwrite, take-overwrite,
}
use bomwerk.Core.Sha256.{Registers, Sha256, initial_state, buffer_rest, absorb_blocks}
use bomwerk.Core.Sha256.Blocks.{
  fold_blocks, fold_blocks-append, fold_blocks-add, compress_blocks_lem, drop-drop, drop-append,
  drop_all,
}

-- The state has taken the whole blocks of the message, and the buffer holds the rest.
pub record Buffers (s : Sha256) (m : Bytes) : Type 0 where
  pub taken : s.state ≡ fold_blocks (length m / 64) initial_state m
  pub pending : take s.buffered_bytes s.block ≡ drop (length m / 64 * 64) m
  pub buffered : s.buffered_bytes ≡ length m % 64
  pub room : length s.block ≡ 64

buffer_rest-state :
    (s : Sha256) (r : Registers) (rest : Bytes) → (buffer_rest s (r, rest)).state ≡ r
unfolding buffer_rest
buffer_rest-state s r [] = refl
buffer_rest-state s r (x ∷ rest) = refl

module _ (s : Sha256) (r : Registers) (emptied : s.buffered_bytes ≡ 0)
    (room : length s.block ≡ 64) where
  buffer_rest-buffered : (rest : Bytes) → (buffer_rest s (r, rest)).buffered_bytes ≡ length rest
  unfolding buffer_rest
  buffer_rest-buffered [] = emptied
  buffer_rest-buffered (x ∷ rest) = refl

  buffer_rest-room : (rest : Bytes) → length rest ≤ 64 → length (buffer_rest s (r, rest)).block ≡ 64
  unfolding buffer_rest
  buffer_rest-room [] h = room
  buffer_rest-room (x ∷ rest) h = length-overwrite s.block 0 (x ∷ rest) (omega arith) ∙ room

  buffer_rest-pending :
      (rest : Bytes)
      → take (buffer_rest s (r, rest)).buffered_bytes (buffer_rest s (r, rest)).block ≡ rest
  unfolding buffer_rest
  buffer_rest-pending [] = ap (λ (n : ℕ). take n s.block) emptied
  buffer_rest-pending (x ∷ rest) =
      let size : suc (length rest) ≡ 0 + length (x ∷ rest) = omega arith in
      ap (λ (n : ℕ). take n (overwrite s.block 0 (x ∷ rest))) size
      ∙ take-overwrite s.block 0 (x ∷ rest) (omega arith)

drop-past : (m b : Bytes) (n j : ℕ) → n ≡ length m → drop (n + j) (m ++ b) ≡ drop j b
drop-past m b n j e =
    sym (drop-drop n j (m ++ b))
    ∙ ap (drop j) (drop-append n m b (omega arith) ∙ ap (λ t. t ++ b) (drop_all n m (omega arith)))

-- With an empty buffer, the blocks and the rest of the bytes are taken.
module _ {s : Sha256} {m : Bytes} (h : Buffers s m) (emptied : s.buffered_bytes ≡ 0)
    (b : Bytes) where
  whole : length m / 64 * 64 ≡ length m
  whole = omega (arith, h.buffered)

  sum_of_blocks : length (m ++ b) / 64 ≡ length m / 64 + length b / 64
  sum_of_blocks = omega (arith, whole, length-append m b)

  rest_short : length (drop (length b / 64 * 64) b) ≡ length b % 64
  rest_short = omega (arith, length-drop (length b / 64 * 64) b)

  blocks_taken :
      fold_blocks (length b / 64) s.state b
      ≡ fold_blocks (length (m ++ b) / 64) initial_state (m ++ b)
  blocks_taken =
      let at : drop (length m / 64 * 64) (m ++ b) ≡ b =
        ap (λ (n : ℕ). drop n (m ++ b)) (omega (arith, whole)) ∙ drop-past m b (length m) 0 refl in
      rw (h.taken, sum_of_blocks)
        (sym (
          fold_blocks-add (length m / 64) (length b / 64) initial_state (m ++ b)
          ∙ ap₂ (fold_blocks (length b / 64))
              (fold_blocks-append (length m / 64) initial_state m b (omega (arith, whole))) at))

  rest_pending : drop (length b / 64 * 64) b ≡ drop (length (m ++ b) / 64 * 64) (m ++ b)
  rest_pending = sym (
      ap (λ (n : ℕ). drop n (m ++ b)) (omega (arith, sum_of_blocks, whole))
      ∙ drop-past m b (length m) (length b / 64 * 64) refl)

  pub absorb_blocks-Buffers : Buffers (absorb_blocks (s, b)) (m ++ b)
  unfolding absorb_blocks
  absorb_blocks-Buffers =
      let rest = drop (length b / 64 * 64) b in
      let r = fold_blocks (length b / 64) s.state b in
      rw (compress_blocks_lem (length b) s.state b (omega arith)) (record {
        taken = buffer_rest-state s r rest ∙ blocks_taken;
        pending = buffer_rest-pending s r emptied h.room rest ∙ rest_pending;
        buffered =
            buffer_rest-buffered s r emptied h.room rest
            ∙ omega (arith, rest_short, sum_of_blocks, whole, length-append m b);
        room = buffer_rest-room s r emptied h.room rest (omega (arith, rest_short));
      })
