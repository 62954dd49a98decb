-- ===== src/Core/Uuid/Version.antt =====
-- `uuidv5` of src/core/uuid.cpp: the marks of version 5, and what is left of the digest.
use bomwerk.Prelude.{
  ℕ, zero, suc, ◌%◌, ◌+◌, ◌<◌, ◌≡◌, ◌≢◌, refl, ap, ◌∙◌, [], ◌∷◌, ◌++◌, arith, true, Bytes, IsByte,
  All, All-take, length, length-take, take, get_or, ◌==◌, ==_iff, bit_and, bit_or, holds_below,
  holds_below_lem, word_bytes,
}
use bomwerk.Core.Sha1.{Words, words_bytes, sha1, sha1_blocks, initial_words, padded_message}
use bomwerk.Core.Uuid.{Uuid, set_byte, uuidv5}

version_table : holds_below 256 (λ b. bit_or (bit_and b 0x0F) 0x50 == 0x50 + b % 16) ≡ true
unfolding holds_below
version_table = refl

variant_table : holds_below 256 (λ b. bit_or (bit_and b 0x3F) 0x80 == 0x80 + b % 64) ≡ true
unfolding holds_below
variant_table = refl

version_byte : (b : ℕ) → b < 256 → bit_or (bit_and b 0x0F) 0x50 ≡ 0x50 + b % 16
version_byte b h =
    (==_iff (bit_or (bit_and b 0x0F) 0x50) (0x50 + b % 16)).0
      (holds_below_lem 256 (λ x. bit_or (bit_and x 0x0F) 0x50 == 0x50 + x % 16) b version_table h)

variant_byte : (b : ℕ) → b < 256 → bit_or (bit_and b 0x3F) 0x80 ≡ 0x80 + b % 64
variant_byte b h =
    (==_iff (bit_or (bit_and b 0x3F) 0x80) (0x80 + b % 64)).0
      (holds_below_lem 256 (λ x. bit_or (bit_and x 0x3F) 0x80 == 0x80 + x % 64) b variant_table h)

length-set_byte : (s : Bytes) (i v : ℕ) → length (set_byte s i v) ≡ length s
unfolding set_byte
length-set_byte [] i v = refl
length-set_byte (x ∷ s) zero v = refl
length-set_byte (x ∷ s) (suc i) v = ap suc (length-set_byte s i v)

All-set_byte : (s : Bytes) (i v : ℕ) → IsByte v → All IsByte s → All IsByte (set_byte s i v)
unfolding set_byte
All-set_byte [] i v hv h = tt
All-set_byte (x ∷ s) zero v hv (hx, h) = (hv, h)
All-set_byte (x ∷ s) (suc i) v hv (hx, h) = (hx, All-set_byte s i v hv h)

get_or-set_byte : (s : Bytes) (i v : ℕ) → i < length s → get_or (set_byte s i v) i 0 ≡ v
unfolding set_byte
get_or-set_byte [] i v h = absurd (omega arith)
get_or-set_byte (x ∷ s) zero v h = refl
get_or-set_byte (x ∷ s) (suc i) v h = get_or-set_byte s i v (omega arith)

get_or-set_other : (s : Bytes) (i j v : ℕ) → j ≢ i → get_or (set_byte s i v) j 0 ≡ get_or s j 0
unfolding set_byte
get_or-set_other [] i j v h = refl
get_or-set_other (x ∷ s) zero zero v h = absurd (h refl)
get_or-set_other (x ∷ s) zero (suc j) v h = refl
get_or-set_other (x ∷ s) (suc i) zero v h = refl
get_or-set_other (x ∷ s) (suc i) (suc j) v h = get_or-set_other s i j v (λ e. h (ap suc e))

get_or-take : (n j : ℕ) (s : Bytes) → j < n → get_or (take n s) j 0 ≡ get_or s j 0
get_or-take zero j s h = absurd (omega arith)
get_or-take (suc n) j [] h = refl
get_or-take (suc n) zero (x ∷ s) h = refl
get_or-take (suc n) (suc j) (x ∷ s) h = get_or-take n j s (omega arith)

get_or-IsByte : (s : Bytes) (j : ℕ) → All IsByte s → get_or s j 0 < 256
get_or-IsByte [] j h = omega arith
get_or-IsByte (x ∷ s) zero (hx, h) = hx
get_or-IsByte (x ∷ s) (suc j) (hx, h) = get_or-IsByte s j h

words_bytes-IsByte : (w : Words) → All IsByte (words_bytes w)
unfolding words_bytes word_bytes
words_bytes-IsByte w = omega arith

pub sha1-IsByte : (m : Bytes) → All IsByte (sha1 m)
unfolding sha1
sha1-IsByte m =
    words_bytes-IsByte (sha1_blocks (length (padded_message m)) (padded_message m) 0 initial_words)

length-words_bytes : (w : Words) → length (words_bytes w) ≡ 20
unfolding words_bytes word_bytes
length-words_bytes w = refl

length-sha1 : (m : Bytes) → length (sha1 m) ≡ 20
unfolding sha1
length-sha1 m =
    length-words_bytes (sha1_blocks (length (padded_message m)) (padded_message m) 0 initial_words)

-- The bytes of a UUID of version 5 and the digest that they come from.
pub record Marks (digest bytes : Bytes) : Type 0 where
  pub size : length bytes ≡ 16
  pub byte_values : All IsByte bytes
  pub version : get_or bytes 6 0 ≡ 0x50 + get_or digest 6 0 % 16
  pub variant : get_or bytes 8 0 ≡ 0x80 + get_or digest 8 0 % 64
  pub others : (j : ℕ) → j < 16 → j ≢ 6 → j ≢ 8 → get_or bytes j 0 ≡ get_or digest j 0

-- A UUID of version 5 has sixteen bytes, the version 5 in the upper half of byte 6 and the variant
-- in the upper two bits of byte 8; all other bits are those of the SHA-1 of the namespace's bytes
-- and the name.
pub uuidv5_lem :
    (namespace_id : Uuid) (name : Bytes)
    → Marks (sha1 (namespace_id.bytes ++ name)) (uuidv5 namespace_id name).bytes
unfolding uuidv5
uuidv5_lem namespace_id name =
    let digest = sha1 (namespace_id.bytes ++ name) in
    let kept = take 16 digest in
    let kept_size : length kept ≡ 16 =
      omega (arith, length-take 16 digest, length-sha1 (namespace_id.bytes ++ name)) in
    let kept_bytes = All-take IsByte 16 digest (sha1-IsByte (namespace_id.bytes ++ name)) in
    let small = get_or-IsByte kept 6 kept_bytes in
    let v = bit_or (bit_and (get_or kept 6 0) 0x0F) 0x50 in
    let v_value = version_byte (get_or kept 6 0) small in
    let versioned = set_byte kept 6 v in
    let versioned_size = length-set_byte kept 6 v in
    let versioned_bytes = All-set_byte kept 6 v (omega (arith, v_value)) kept_bytes in
    let w = bit_or (bit_and (get_or versioned 8 0) 0x3F) 0x80 in
    let w_value = variant_byte (get_or versioned 8 0) (get_or-IsByte versioned 8 versioned_bytes) in
    record {
      size = length-set_byte versioned 8 w ∙ versioned_size ∙ kept_size;
      byte_values = All-set_byte versioned 8 w (omega (arith, w_value)) versioned_bytes;
      version =
          get_or-set_other versioned 8 6 w (omega arith)
          ∙ get_or-set_byte kept 6 v (omega arith)
          ∙ v_value
          ∙ ap (λ (x : ℕ). 0x50 + x % 16) (get_or-take 16 6 digest (omega arith));
      variant =
          get_or-set_byte versioned 8 w (omega arith)
          ∙ w_value
          ∙ ap (λ (x : ℕ). 0x80 + x % 64)
              (get_or-set_other kept 6 8 v (omega arith) ∙ get_or-take 16 8 digest (omega arith));
      others = λ j small_j not6 not8.
          get_or-set_other versioned 8 j w not8
          ∙ get_or-set_other kept 6 j v not6
          ∙ get_or-take 16 j digest small_j;
    }
