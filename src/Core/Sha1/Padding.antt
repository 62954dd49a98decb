-- ===== src/Core/Sha1/Padding.antt =====
-- The padding loop of `sha1` in src/core/uuid.cpp, and its loop over the blocks.
use bomwerk.Prelude.{
  ℕ, zero, suc, ◌+◌, ◌-◌, ◌*◌, ◌/◌, ◌%◌, ◌^◌, ◌≤◌, ◌≡◌, refl, sym, ap, ◌∙◌, true, false, [], ◌∷◌,
  ◌++◌, arith, append-nil, append_assoc, Bytes, ltb, ◌==◌, ==_iff, length, length-append,
}
use bomwerk.Core.Sha256.{zeros, length_suffix}
use bomwerk.Core.Sha256.Digest.{padded, length-padded}
use bomwerk.Core.Sha1.{
  Words, initial_words, push_zeros, push_length, padded_message, sha1_block, sha1_blocks,
  words_bytes, sha1,
}

zeros_pushed : (fuel : ℕ) (p : Bytes) → length p % 64 ≡ 56 → push_zeros fuel p ≡ p
unfolding push_zeros
zeros_pushed zero p h = refl
zeros_pushed (suc fuel) p h = rw ((==_iff (length p % 64) 56).1 h, push_zeros)

zero_pushed :
    (fuel : ℕ) (p : Bytes)
    → (length p % 64 == 56) ≡ false
    → push_zeros (suc fuel) p ≡ push_zeros fuel (p ++ 0 ∷ [])
unfolding push_zeros
zero_pushed fuel p h = rw (h, push_zeros)

push_zeros_lem :
    (k fuel : ℕ) (p : Bytes)
    → k ≤ fuel
    → (120 - length p % 64) % 64 ≡ k
    → push_zeros fuel p ≡ p ++ zeros k
unfolding zeros
push_zeros_lem zero fuel p h e = zeros_pushed fuel p (omega arith) ∙ sym (append-nil p)
push_zeros_lem (suc k) zero p h e = absurd (omega arith)
push_zeros_lem (suc k) (suc fuel) p h e =
    zero_pushed fuel p (ground arith)
    ∙ push_zeros_lem k fuel (p ++ 0 ∷ []) (omega arith) (omega (arith, length-append p (0 ∷ [])))
    ∙ append_assoc p (0 ∷ []) (zeros k)

push_length_lem : (n : ℕ) (p : Bytes) → push_length 8 n p ≡ p ++ length_suffix n
unfolding push_length length_suffix
push_length_lem n p = let whole : n / 2 ^ (8 * 0) ≡ n = omega arith in simp (append_assoc, whole)

-- SHA-1 pads a message as SHA-256 does.
padded_message_lem : (m : Bytes) → padded_message m ≡ padded m
unfolding padded_message padded
padded_message_lem m =
    let count = (119 - length m % 64) % 64 in
    let started : length (m ++ 0x80 ∷ []) ≡ length m + 1 =
      omega (arith, length-append m (0x80 ∷ [])) in
    push_length_lem (length m * 8 % 2 ^ 64) (push_zeros 64 (m ++ 0x80 ∷ []))
    ∙ ap (λ t. t ++ length_suffix (length m * 8 % 2 ^ 64))
        (push_zeros_lem count 64 (m ++ 0x80 ∷ []) (omega arith) (omega (arith, started)))
    ∙ append_assoc (m ++ 0x80 ∷ []) (zeros count) (length_suffix (length m * 8 % 2 ^ 64))
    ∙ append_assoc m (0x80 ∷ []) (zeros count ++ length_suffix (length m * 8 % 2 ^ 64))

-- The compression of a number of blocks, from a position on.
pub fold_words : ℕ → Bytes → ℕ → Words → Words
fold_words zero p start h = h
fold_words (suc n) p start h = fold_words n p (start + 64) (sha1_block p start h)

blocks_done :
    (fuel : ℕ) (p : Bytes) (start : ℕ) (h : Words)
    → ltb start (length p) ≡ false
    → sha1_blocks fuel p start h ≡ h
unfolding sha1_blocks
blocks_done zero p start h e = refl
blocks_done (suc fuel) p start h e = rw (e, sha1_blocks)

block_done :
    (fuel : ℕ) (p : Bytes) (start : ℕ) (h : Words)
    → ltb start (length p) ≡ true
    → sha1_blocks (suc fuel) p start h ≡ sha1_blocks fuel p (start + 64) (sha1_block p start h)
unfolding sha1_blocks
block_done fuel p start h e = rw (e, sha1_blocks)

sha1_blocks_lem :
    (n fuel : ℕ) (p : Bytes) (start : ℕ) (h : Words)
    → n ≤ fuel
    → length p ≡ start + n * 64
    → sha1_blocks fuel p start h ≡ fold_words n p start h
unfolding fold_words
sha1_blocks_lem zero fuel p start h le e = blocks_done fuel p start h (ground arith)
sha1_blocks_lem (suc n) zero p start h le e = absurd (omega arith)
sha1_blocks_lem (suc n) (suc fuel) p start h le e =
    block_done fuel p start h (ground arith)
    ∙ sha1_blocks_lem n fuel p (start + 64) (sha1_block p start h) (omega arith) (omega arith)

-- The digest compresses every block of the message in the padding that SHA-256 has, each once and
-- from the first on, and the loops need no more rounds than the model gives them.
pub sha1_lem :
    (m : Bytes)
    → sha1 m ≡ words_bytes (fold_words (length (padded m) / 64) (padded m) 0 initial_words)
unfolding sha1
sha1_lem m = rw (padded_message_lem m) (
    ap words_bytes (
      sha1_blocks_lem (length (padded m) / 64) (length (padded m)) (padded m) 0 initial_words
        (omega arith) (omega (arith, length-padded m))))
