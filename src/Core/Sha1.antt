-- ===== src/Core/Sha1.antt =====
-- src/core/uuid.cpp: the SHA-1 that version 5 UUIDs are made with.
pub mod Padding
use bomwerk.Prelude.{
  ℕ, zero, suc, ◌+◌, ◌-◌, ◌*◌, ◌/◌, ◌%◌, ◌^◌, true, false, List, [], ◌∷◌, ◌++◌, Bytes, get_or, ltb,
  ◌==◌, if◌then◌else◌, bit_and, bit_or, length, wrap32, complement32, load_word, word_bytes,
}
use Prim.Native.Nat.{bit_xor}

unfoldable pub rotate_left : ℕ → ℕ → ℕ
rotate_left value bits = bit_or (wrap32 (value * 2 ^ bits)) (value / 2 ^ (32 - bits))

-- h0 to h4, and the working variables a to e.
pub record Words : Type 0 where
  pub a : ℕ
  pub b : ℕ
  pub c : ℕ
  pub d : ℕ
  pub e : ℕ

abbrev pub initial_words : Words
initial_words = record {
  a = 0x67452301;
  b = 0xEFCDAB89;
  c = 0x98BADCFE;
  d = 0x10325476;
  e = 0xC3D2E1F0;
}

-- The zero bytes up to the length suffix.
unfoldable pub push_zeros : ℕ → Bytes → Bytes
push_zeros zero padded = padded
push_zeros (suc fuel) padded = elim (length padded % 64 == 56) [
  | true ↦ padded
  | false ↦ push_zeros fuel (padded ++ 0 ∷ [])
]

-- The bytes of a 64-bit number, pushed from the highest on.
unfoldable pub push_length : ℕ → ℕ → Bytes → Bytes
push_length zero length_bits padded = padded
push_length (suc left) length_bits padded =
    push_length left length_bits (padded ++ (length_bits / 2 ^ (8 * left) % 256) ∷ [])

-- The vector `padded` when it is complete.
unfoldable pub padded_message : Bytes → Bytes
unfolding push_zeros push_length
padded_message message =
    push_length 8 (length message * 8 % 2 ^ 64) (push_zeros 64 (message ++ 0x80 ∷ []))

unfoldable pub block_words : ℕ → ℕ → Bytes → ℕ → List ℕ
block_words zero word_index padded block_start = []
block_words (suc left) word_index padded block_start =
    load_word padded (block_start + word_index * 4)
    ∷ block_words left (word_index + 1) padded block_start

unfoldable pub mixed_word : List ℕ → ℕ → ℕ
mixed_word schedule word_index =
    rotate_left
      (bit_xor
        (bit_xor (bit_xor (get_or schedule (word_index - 3) 0) (get_or schedule (word_index - 8) 0))
          (get_or schedule (word_index - 14) 0))
        (get_or schedule (word_index - 16) 0))
      1

unfoldable pub mixed_words : ℕ → ℕ → List ℕ → List ℕ
mixed_words zero word_index schedule = schedule
mixed_words (suc left) word_index schedule =
    mixed_words left (word_index + 1) (schedule ++ mixed_word schedule word_index ∷ [])

unfoldable pub round_function : ℕ → Words → ℕ
round_function round w =
    if ltb round 20
    then bit_or (bit_and w.b w.c) (bit_and (complement32 w.b) w.d)
    else if ltb round 40
    then bit_xor (bit_xor w.b w.c) w.d
    else if ltb round 60
    then bit_or (bit_or (bit_and w.b w.c) (bit_and w.b w.d)) (bit_and w.c w.d)
    else bit_xor (bit_xor w.b w.c) w.d

unfoldable pub round_constant : ℕ → ℕ
round_constant round =
    if ltb round 20
    then 0x5A827999
    else if ltb round 40
    then 0x6ED9EBA1
    else if ltb round 60
    then 0x8F1BBCDC
    else 0xCA62C1D6

unfoldable pub sha1_round : List ℕ → ℕ → Words → Words
sha1_round schedule round w =
    let temp = wrap32 (
      rotate_left w.a 5
      + round_function round w
      + w.e
      + round_constant round
      + get_or schedule round 0) in
    record { a = temp; b = w.a; c = rotate_left w.b 30; d = w.c; e = w.d }

unfoldable pub sha1_rounds : ℕ → ℕ → List ℕ → Words → Words
sha1_rounds zero round schedule w = w
sha1_rounds (suc left) round schedule w =
    sha1_rounds left (round + 1) schedule (sha1_round schedule round w)

-- One round of the loop over the blocks.
unfoldable pub sha1_block : Bytes → ℕ → Words → Words
unfolding rotate_left block_words mixed_word mixed_words round_function round_constant sha1_round
    sha1_rounds
sha1_block padded block_start h =
    let schedule = mixed_words 64 16 (block_words 16 0 padded block_start) in
    let w = sha1_rounds 80 0 schedule h in
    record {
      a = wrap32 (h.a + w.a);
      b = wrap32 (h.b + w.b);
      c = wrap32 (h.c + w.c);
      d = wrap32 (h.d + w.d);
      e = wrap32 (h.e + w.e);
    }

unfoldable pub sha1_blocks : ℕ → Bytes → ℕ → Words → Words
sha1_blocks zero padded block_start h = h
sha1_blocks (suc fuel) padded block_start h = elim (ltb block_start (length padded)) [
  | true ↦ sha1_blocks fuel padded (block_start + 64) (sha1_block padded block_start h)
  | false ↦ h
]

unfoldable pub words_bytes : Words → Bytes
words_bytes h =
    word_bytes h.a ++ (word_bytes h.b ++ (word_bytes h.c ++ (word_bytes h.d ++ word_bytes h.e)))

unfoldable pub sha1 : Bytes → Bytes
unfolding padded_message sha1_block sha1_blocks words_bytes
sha1 message =
    let padded = padded_message message in
    words_bytes (sha1_blocks (length padded) padded 0 initial_words)
