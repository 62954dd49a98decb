-- ===== src/Core/Sha256.antt =====
-- src/core/sha256.cpp and core/sha256.hpp: the streaming SHA-256, its digest and the digest as text.
pub mod Blocks
pub mod Stream
pub mod Update
pub mod Digest
pub mod Hex
use bomwerk.Prelude.{
  ℕ, zero, suc, ◌+◌, ◌-◌, ◌*◌, ◌/◌, ◌%◌, ◌^◌, ◌&&◌, ◌||◌, min, Bool, true, false, Option, none,
  some, List, [], ◌∷◌, ◌++◌, Bytes, codes, get_or, ltb, leb, between, ◌==◌, if◌then◌else◌, bit_and,
  bit_or, length, take, drop, wrap32, complement32, load_word, word_bytes, overwrite,
}
use Prim.Native.Nat.{bit_xor}

abbrev pub block_bytes : ℕ
block_bytes = 64

abbrev pub length_suffix_bytes : ℕ
length_suffix_bytes = 8

abbrev pub padding_start_byte : ℕ
padding_start_byte = 0x80

abbrev round_constants : List ℕ
round_constants =
    0x428a2f98 ∷ 0x71374491 ∷ 0xb5c0fbcf ∷ 0xe9b5dba5 ∷ 0x3956c25b ∷ 0x59f111f1 ∷ 0x923f82a4
    ∷ 0xab1c5ed5 ∷ 0xd807aa98 ∷ 0x12835b01 ∷ 0x243185be ∷ 0x550c7dc3 ∷ 0x72be5d74 ∷ 0x80deb1fe
    ∷ 0x9bdc06a7 ∷ 0xc19bf174 ∷ 0xe49b69c1 ∷ 0xefbe4786 ∷ 0x0fc19dc6 ∷ 0x240ca1cc ∷ 0x2de92c6f
    ∷ 0x4a7484aa ∷ 0x5cb0a9dc ∷ 0x76f988da ∷ 0x983e5152 ∷ 0xa831c66d ∷ 0xb00327c8 ∷ 0xbf597fc7
    ∷ 0xc6e00bf3 ∷ 0xd5a79147 ∷ 0x06ca6351 ∷ 0x14292967 ∷ 0x27b70a85 ∷ 0x2e1b2138 ∷ 0x4d2c6dfc
    ∷ 0x53380d13 ∷ 0x650a7354 ∷ 0x766a0abb ∷ 0x81c2c92e ∷ 0x92722c85 ∷ 0xa2bfe8a1 ∷ 0xa81a664b
    ∷ 0xc24b8b70 ∷ 0xc76c51a3 ∷ 0xd192e819 ∷ 0xd6990624 ∷ 0xf40e3585 ∷ 0x106aa070 ∷ 0x19a4c116
    ∷ 0x1e376c08 ∷ 0x2748774c ∷ 0x34b0bcb5 ∷ 0x391c0cb3 ∷ 0x4ed8aa4a ∷ 0x5b9cca4f ∷ 0x682e6ff3
    ∷ 0x748f82ee ∷ 0x78a5636f ∷ 0x84c87814 ∷ 0x8cc70208 ∷ 0x90befffa ∷ 0xa4506ceb ∷ 0xbef9a3f7
    ∷ 0xc67178f2 ∷ []

unfoldable pub rotate_right : ℕ → ℕ → ℕ
rotate_right value bits = bit_or (value / 2 ^ bits) (wrap32 (value * 2 ^ (32 - bits)))

-- The eight words of the state, and of the working variables a to h.
pub record Registers : Type 0 where
  pub a : ℕ
  pub b : ℕ
  pub c : ℕ
  pub d : ℕ
  pub e : ℕ
  pub f : ℕ
  pub g : ℕ
  pub h : ℕ

-- The first sixteen words of the schedule; the count of words left leads the loop.
unfoldable pub loaded_words : ℕ → ℕ → Bytes → List ℕ
loaded_words zero word_index block = []
loaded_words (suc left) word_index block =
    load_word block (word_index * 4) ∷ loaded_words left (word_index + 1) block

unfoldable pub schedule_word : List ℕ → ℕ → ℕ
schedule_word schedule word_index =
    let previous_15 = get_or schedule (word_index - 15) 0 in
    let previous_2 = get_or schedule (word_index - 2) 0 in
    let sigma0 =
      bit_xor (bit_xor (rotate_right previous_15 7) (rotate_right previous_15 18))
        (previous_15 / 2 ^ 3) in
    let sigma1 =
      bit_xor (bit_xor (rotate_right previous_2 17) (rotate_right previous_2 19))
        (previous_2 / 2 ^ 10) in
    wrap32
      (get_or schedule (word_index - 16) 0 + sigma0 + get_or schedule (word_index - 7) 0 + sigma1)

unfoldable pub extended_schedule : ℕ → ℕ → List ℕ → List ℕ
extended_schedule zero word_index schedule = schedule
extended_schedule (suc left) word_index schedule =
    extended_schedule left (word_index + 1) (schedule ++ schedule_word schedule word_index ∷ [])

unfoldable pub compress_round : List ℕ → ℕ → Registers → Registers
compress_round schedule round r =
    let big_sigma1 =
      bit_xor (bit_xor (rotate_right r.e 6) (rotate_right r.e 11)) (rotate_right r.e 25) in
    let choose = bit_xor (bit_and r.e r.f) (bit_and (complement32 r.e) r.g) in
    let temporary1 =
      wrap32
        (r.h + big_sigma1 + choose + get_or round_constants round 0 + get_or schedule round 0) in
    let big_sigma0 =
      bit_xor (bit_xor (rotate_right r.a 2) (rotate_right r.a 13)) (rotate_right r.a 22) in
    let majority = bit_xor (bit_xor (bit_and r.a r.b) (bit_and r.a r.c)) (bit_and r.b r.c) in
    let temporary2 = wrap32 (big_sigma0 + majority) in
    record {
      a = wrap32 (temporary1 + temporary2);
      b = r.a;
      c = r.b;
      d = r.c;
      e = wrap32 (r.d + temporary1);
      f = r.e;
      g = r.f;
      h = r.g;
    }

unfoldable pub compress_rounds : ℕ → ℕ → List ℕ → Registers → Registers
compress_rounds zero round schedule r = r
compress_rounds (suc left) round schedule r =
    compress_rounds left (round + 1) schedule (compress_round schedule round r)

unfoldable pub add_registers : Registers → Registers → Registers
add_registers s r = record {
  a = wrap32 (s.a + r.a);
  b = wrap32 (s.b + r.b);
  c = wrap32 (s.c + r.c);
  d = wrap32 (s.d + r.d);
  e = wrap32 (s.e + r.e);
  f = wrap32 (s.f + r.f);
  g = wrap32 (s.g + r.g);
  h = wrap32 (s.h + r.h);
}

-- compress_block(state, block)
unfoldable pub compress_block : Registers → Bytes → Registers
unfolding loaded_words schedule_word extended_schedule compress_round compress_rounds add_registers
compress_block state block =
    let schedule = extended_schedule 48 16 (loaded_words 16 0 block) in
    add_registers state (compress_rounds 64 0 schedule state)

-- The object: `block` is the array `block_`, of which the first `buffered_bytes` are in use.
pub record Sha256 : Type 0 where
  pub state : Registers
  pub block : Bytes
  pub buffered_bytes : ℕ
  pub total_bytes : ℕ

abbrev pub initial_state : Registers
initial_state = record {
  a = 0x6a09e667;
  b = 0xbb67ae85;
  c = 0x3c6ef372;
  d = 0xa54ff53a;
  e = 0x510e527f;
  f = 0x9b05688c;
  g = 0x1f83d9ab;
  h = 0x5be0cd19;
}

unfoldable pub zeros : ℕ → Bytes
zeros zero = []
zeros (suc n) = 0 ∷ zeros n

abbrev pub new_sha256 : Sha256
new_sha256 = record { state = initial_state; block = zeros 64; buffered_bytes = 0; total_bytes = 0 }

-- The whole blocks at the front of a text go into the state; what is left comes back with it.
unfoldable pub compress_blocks : ℕ → Registers → Bytes → Registers × Bytes
compress_blocks zero state bytes = (state, bytes)
compress_blocks (suc fuel) state bytes = elim (leb block_bytes (length bytes)) [
  | true ↦ compress_blocks fuel (compress_block state (take 64 bytes)) (drop 64 bytes)
  | false ↦ (state, bytes)
]

-- The partly filled block is topped up. What is left of the bytes comes back with the object.
unfoldable pub topped_up : Sha256 → Bytes → Sha256 × Bytes
topped_up s bytes =
    let taken = min (block_bytes - s.buffered_bytes) (length bytes) in
    let block = overwrite s.block s.buffered_bytes (take taken bytes) in
    let buffered_bytes = s.buffered_bytes + taken in
    let full = record s {
      state = compress_block s.state block;
      block = block;
      buffered_bytes = 0;
    } in
    let partial = record s { block = block; buffered_bytes = buffered_bytes } in
    (if buffered_bytes == block_bytes then full else partial, drop taken bytes)

unfoldable pub buffer_rest : Sha256 → Registers × Bytes → Sha256
buffer_rest s (state, []) = record s { state = state }
buffer_rest s (state, x ∷ rest) = record s {
  state = state;
  block = overwrite s.block 0 (x ∷ rest);
  buffered_bytes = length (x ∷ rest);
}

unfoldable pub absorb_blocks : Sha256 × Bytes → Sha256
unfolding compress_blocks buffer_rest
absorb_blocks (s, bytes) = buffer_rest s (compress_blocks (length bytes) s.state bytes)

-- Sha256::update
unfoldable pub update : Sha256 → Bytes → Sha256
unfolding topped_up absorb_blocks
update s bytes =
    let counted = record s { total_bytes = (s.total_bytes + length bytes) % 2 ^ 64 } in
    absorb_blocks (if ltb 0 s.buffered_bytes then topped_up counted bytes else (counted, bytes))

-- The zero bytes up to the length suffix.
unfoldable pub pad_zeros : ℕ → Bytes → Bytes
pad_zeros zero tail = tail
pad_zeros (suc fuel) tail = elim (length tail % block_bytes == block_bytes - length_suffix_bytes) [
  | true ↦ tail
  | false ↦ pad_zeros fuel (tail ++ 0 ∷ [])
]

-- The eight bytes of a 64-bit number, the highest first.
unfoldable pub length_suffix : ℕ → Bytes
length_suffix n =
    n / 2 ^ 56 % 256
    ∷ n / 2 ^ 48 % 256
    ∷ n / 2 ^ 40 % 256
    ∷ n / 2 ^ 32 % 256
    ∷ n / 2 ^ 24 % 256
    ∷ n / 2 ^ 16 % 256
    ∷ n / 2 ^ 8 % 256
    ∷ n % 256
    ∷ []

-- The first `tail_size` bytes of the array `tail`.
unfoldable pub digest_tail : Sha256 → Bytes
unfolding pad_zeros length_suffix
digest_tail s =
    pad_zeros block_bytes (take s.buffered_bytes s.block ++ padding_start_byte ∷ [])
    ++ length_suffix (s.total_bytes * 8 % 2 ^ 64)

unfoldable pub registers_bytes : Registers → Bytes
registers_bytes r =
    word_bytes r.a
    ++ (word_bytes r.b
        ++ (word_bytes r.c
            ++ (word_bytes r.d
                ++ (word_bytes r.e ++ (word_bytes r.f ++ (word_bytes r.g ++ word_bytes r.h))))))

-- Sha256::digest
unfoldable pub digest : Sha256 → Bytes
unfolding digest_tail compress_blocks registers_bytes
digest s =
    let tail = digest_tail s in registers_bytes (compress_blocks (length tail) s.state tail).0

unfoldable pub sha256 : Bytes → Bytes
unfolding update digest
sha256 bytes = digest (update new_sha256 bytes)

abbrev pub hex_digits : Bytes
hex_digits = codes "0123456789abcdef"

unfoldable pub to_hex : Bytes → Bytes
to_hex [] = []
to_hex (byte ∷ s) =
    get_or hex_digits (byte / 2 ^ 4) 0 ∷ get_or hex_digits (bit_and byte 0x0F) 0 ∷ to_hex s

unfoldable pub lowercase_hex_value : ℕ → ℕ
lowercase_hex_value c =
    if between b'0' b'9' c then c - b'0' else if between b'a' b'f' c then c - b'a' + 10 else 16

-- The bytes of the pairs of digits, whose number the length fixes.
unfoldable pub hex_pairs : Bytes → Option Bytes
unfolding lowercase_hex_value
hex_pairs [] = some []
hex_pairs (p ∷ []) = some []
hex_pairs (p ∷ q ∷ s) =
    let high = lowercase_hex_value p in
    let low = lowercase_hex_value q in
    elim (ltb 15 high || ltb 15 low) [
      | true ↦ none
      | false ↦ elim (hex_pairs s) [ none ↦ none | some t ↦ some (bit_or (high * 2 ^ 4) low ∷ t) ]
    ]

unfoldable pub sha256_from_hex : Bytes → Option Bytes
unfolding hex_pairs
sha256_from_hex s = if length s == 64 then hex_pairs s else none
