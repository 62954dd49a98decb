-- ===== src/Core/Sha256/Update.antt =====
-- `Sha256::update` of src/core/sha256.cpp, with a block that is partly filled.
use bomwerk.Prelude.{
  ℕ, ◌+◌, ◌-◌, ◌*◌, ◌/◌, ◌%◌, ◌^◌, ◌≤◌, ◌<◌, ◌≡◌, refl, sym, ap, ap₂, ◌∙◌, inl, inr, [], ◌∷◌, ◌++◌,
  arith, append_assoc, Bytes, Bool-cases, ltb, ◌==◌, min, length, take, drop, length-append,
  length-take, take_all, take-append-drop, overwrite, length-overwrite, take-overwrite, ==_iff,
  subst,
}
use bomwerk.Core.Sha256.{
  block_bytes, Registers, compress_block, compress_blocks, Sha256, initial_state, topped_up,
  buffer_rest, absorb_blocks, update,
}
use bomwerk.Core.Sha256.Blocks.{
  fold_blocks, fold_blocks-append, fold_blocks-add, drop-append, drop_all,
}
use bomwerk.Core.Sha256.Stream.{Buffers, absorb_blocks-Buffers}

abbrev taken_bytes : Sha256 → Bytes → ℕ
taken_bytes s b = min (block_bytes - s.buffered_bytes) (length b)

abbrev written : Sha256 → Bytes → Bytes
written s b = overwrite s.block s.buffered_bytes (take (taken_bytes s b) b)

module _ {s : Sha256} {m : Bytes} (h : Buffers s m) (b : Bytes) where
  new_size : length (take (taken_bytes s b) b) ≡ taken_bytes s b
  new_size = omega (arith, length-take (taken_bytes s b) b)

  below : s.buffered_bytes < 64
  below = omega (arith, h.buffered)

  written_size : length (written s b) ≡ 64
  written_size =
      length-overwrite s.block s.buffered_bytes (take (taken_bytes s b) b)
        (omega (arith, new_size, below, h.room))
      ∙ h.room

  written_front :
      take (s.buffered_bytes + taken_bytes s b) (written s b)
      ≡ drop (length m / 64 * 64) (m ++ take (taken_bytes s b) b)
  written_front =
      let new = take (taken_bytes s b) b in
      ap (λ (n : ℕ). take (s.buffered_bytes + n) (written s b)) (sym new_size)
      ∙ take-overwrite s.block s.buffered_bytes new (omega (arith, below, h.room))
      ∙ ap (λ t. t ++ new) h.pending
      ∙ sym (drop-append (length m / 64 * 64) m new (omega arith))

  total_size : length (m ++ take (taken_bytes s b) b) ≡ length m + taken_bytes s b
  total_size = omega (arith, length-append m (take (taken_bytes s b) b), new_size)

  partial-Buffers :
      s.buffered_bytes + taken_bytes s b < 64
      → Buffers
          (record s { block = written s b; buffered_bytes = s.buffered_bytes + taken_bytes s b })
          (m ++ take (taken_bytes s b) b)
  partial-Buffers short =
      let count : length (m ++ take (taken_bytes s b) b) / 64 ≡ length m / 64 =
        omega (arith, total_size, h.buffered) in
      record {
        taken =
            h.taken
            ∙ sym (
                ap (λ (n : ℕ). fold_blocks n initial_state (m ++ take (taken_bytes s b) b)) count
                ∙ fold_blocks-append (length m / 64) initial_state m (take (taken_bytes s b) b)
                    (omega arith));
        pending =
            written_front
            ∙ ap (λ (n : ℕ). drop (n * 64) (m ++ take (taken_bytes s b) b)) (sym count);
        buffered = omega (arith, total_size, h.buffered);
        room = written_size;
      }

  full-Buffers :
      s.buffered_bytes + taken_bytes s b ≡ 64
      → Buffers
          (record s {
            state = compress_block s.state (written s b);
            block = written s b;
            buffered_bytes = 0;
          })
          (m ++ take (taken_bytes s b) b)
  unfolding fold_blocks
  full-Buffers full =
      let joined = m ++ take (taken_bytes s b) b in
      let count : length joined / 64 ≡ length m / 64 + 1 = omega (arith, total_size, h.buffered) in
      let last_block : take 64 (drop (length m / 64 * 64) joined) ≡ written s b =
        ap (take 64) (
          sym written_front
          ∙ ap (λ (n : ℕ). take n (written s b)) full
          ∙ take_all 64 (written s b) (omega (arith, written_size)))
        ∙ take_all 64 (written s b) (omega (arith, written_size)) in
      record {
        taken = sym (
            ap (λ (n : ℕ). fold_blocks n initial_state joined) count
            ∙ fold_blocks-add (length m / 64) 1 initial_state joined
            ∙ ap₂ compress_block
                (fold_blocks-append (length m / 64) initial_state m (take (taken_bytes s b) b)
                    (omega arith)
                  ∙ sym h.taken)
                last_block);
        pending = sym (
            drop_all (length joined / 64 * 64) joined
              (omega (arith, count, total_size, h.buffered)));
        buffered = omega (arith, total_size, h.buffered);
        room = written_size;
      }

absorb_nothing : (s : Sha256) → absorb_blocks (s, []) ≡ s
unfolding absorb_blocks
absorb_nothing s = refl

under_64 : {n k : ℕ} → n ≡ 64 - k → k ≤ 64 → k + n ≡ 64
under_64 e h = omega arith

module _ {s : Sha256} {m : Bytes} (h : Buffers s m) (b : Bytes) where
  topped_up-Buffers : Buffers (absorb_blocks (topped_up s b)) (m ++ b)
  unfolding topped_up
  topped_up-Buffers =
      let parts : (m ++ take (taken_bytes s b) b) ++ drop (taken_bytes s b) b ≡ m ++ b =
        append_assoc m (take (taken_bytes s b) b) (drop (taken_bytes s b) b)
        ∙ ap (λ t. m ++ t) (take-append-drop (taken_bytes s b) b) in
      elim (Bool-cases (s.buffered_bytes + taken_bytes s b == block_bytes)) [
        | inl full ↦
            rw (full, ← parts)
              (absorb_blocks-Buffers
                (full-Buffers h b ((==_iff (s.buffered_bytes + taken_bytes s b) 64).0 full)) refl
                (drop (taken_bytes s b) b))
        | inr short ↦
            let all_taken : taken_bytes s b ≡ length b = ground (arith, below h b) in
            let room_left : s.buffered_bytes + taken_bytes s b < 64 = ground (arith, below h b) in
            let none_left : drop (taken_bytes s b) b ≡ [] =
              drop_all (taken_bytes s b) b (omega arith) in
            let all : take (taken_bytes s b) b ≡ b = take_all (taken_bytes s b) b (omega arith) in
            rw (short, none_left)
              (subst (Buffers _) (ap (λ t. m ++ t) all) (
                subst (λ t. Buffers t (m ++ take (taken_bytes s b) b)) (sym (absorb_nothing _))
                  (partial-Buffers h b room_left)))
      ]

counted_bytes : Sha256 → Bytes → Sha256
counted_bytes s b = record s { total_bytes = (s.total_bytes + length b) % 2 ^ 64 }

counted-Buffers : {s : Sha256} {m : Bytes} (b : Bytes) → Buffers s m → Buffers (counted_bytes s b) m
unfolding counted_bytes
counted-Buffers b h = record {
  taken = h.taken;
  pending = h.pending;
  buffered = h.buffered;
  room = h.room;
}

-- Feeding more bytes extends the message that the object stands for.
pub update-Buffers :
    {s : Sha256} {m : Bytes} (b : Bytes) → Buffers s m → Buffers (update s b) (m ++ b)
unfolding update counted_bytes
update-Buffers {s} {m} b h = elim (Bool-cases (ltb 0 s.buffered_bytes)) [
  | inl some_kept ↦ rw some_kept (topped_up-Buffers (counted-Buffers b h) b)
  | inr none_kept ↦ rw none_kept (absorb_blocks-Buffers (counted-Buffers b h) (ground arith) b)
]

buffer_rest-total :
    (s : Sha256) (r : Registers) (rest : Bytes)
    → (buffer_rest s (r, rest)).total_bytes ≡ s.total_bytes
unfolding buffer_rest
buffer_rest-total s r [] = refl
buffer_rest-total s r (x ∷ rest) = refl

absorb_blocks-total : (s : Sha256) (b : Bytes) → (absorb_blocks (s, b)).total_bytes ≡ s.total_bytes
unfolding absorb_blocks
absorb_blocks-total s b =
    let (r, rest) = compress_blocks (length b) s.state b in buffer_rest-total s r rest

topped_up-total : (s : Sha256) (b : Bytes) → (topped_up s b).0.total_bytes ≡ s.total_bytes
unfolding topped_up
topped_up-total s b = elim (Bool-cases (s.buffered_bytes + taken_bytes s b == block_bytes)) [
  | inl full ↦ rw full
  | inr short ↦ rw short
]

pub update-total :
    (s : Sha256) (b : Bytes) → (update s b).total_bytes ≡ (s.total_bytes + length b) % 2 ^ 64
unfolding update
update-total s b =
    let counted = record s { total_bytes = (s.total_bytes + length b) % 2 ^ 64 } in
    elim (Bool-cases (ltb 0 s.buffered_bytes)) [
      | inl some_kept ↦ rw some_kept (
          absorb_blocks-total (topped_up counted b).0 (topped_up counted b).1
          ∙ topped_up-total counted b)
      | inr none_kept ↦ rw none_kept (absorb_blocks-total counted b)
    ]
