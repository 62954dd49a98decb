-- ===== src/Binscan/Cursor/Integers.antt =====
-- `ByteCursor::uint_at` of src/binscan/byte_cursor.hpp against the two ways to read a number.
use native.Mathlib.Nat.{pow-suc, mul-le-mul_right, mul-add, mul_assoc, mul_comm}
use bomwerk.Prelude.{
  ℕ, zero, suc, ◌+◌, ◌-◌, ◌*◌, ◌^◌, ◌%◌, ◌≤◌, ◌<◌, ◌≡◌, refl, sym, ap, ◌∙◌, true, none, some, [],
  ◌∷◌, ◌++◌, arith, Bytes, IsByte, All, length, length-drop, take, drop, get_or, get_or-All,
  drop-get_or, take-get_or, get_or-drop, leb, leb→le, holds_below, holds_below_lem, bit_or,
  bit_or_disjoint_below, if◌then◌else◌, Bool-cases, inl, inr,
}
use bomwerk.Binscan.Cursor.{
  ByteOrder, little, big, IntegerWidth, one_byte, two_bytes, four_bytes, eight_bytes, byte_count,
  ByteCursor, word, has_range, source_index, assemble, uint_at,
}

-- the lowest byte first
pub little_value : Bytes → ℕ
little_value [] = 0
little_value (b ∷ s) = b + 256 * little_value s

-- the highest byte first, behind those of `above`
pub big_value : ℕ → Bytes → ℕ
big_value above [] = above
big_value above (b ∷ s) = big_value (above * 256 + b) s

pub value_of : ByteOrder → Bytes → ℕ
value_of little s = little_value s
value_of big s = big_value 0 s

big_value-append :
    (above : ℕ) (s : Bytes) (b : ℕ) → big_value above (s ++ b ∷ []) ≡ big_value above s * 256 + b
unfolding big_value
big_value-append above [] b = refl
big_value-append above (c ∷ s) b = big_value-append (above * 256 + c) s b

-- `left` digits to the base 256, the lowest at `index`
digit_sum : (ℕ → ℕ) → ℕ → ℕ → ℕ
digit_sum digit index zero = 0
digit_sum digit index (suc left) = digit index + 256 * digit_sum digit (index + 1) left

byte_power : (i : ℕ) → 2 ^ (8 * (i + 1)) ≡ 2 ^ (8 * i) * 256
byte_power i =
    let next : 8 * (i + 1) ≡ suc (suc (suc (suc (suc (suc (suc (suc (8 * i)))))))) = omega arith in
    let n = 8 * i in
    ap (λ (t : ℕ). 2 ^ t) next
    ∙ omega (
      arith,
      pow-suc 2 n,
      pow-suc 2 (suc n),
      pow-suc 2 (suc (suc n)),
      pow-suc 2 (suc (suc (suc n))),
      pow-suc 2 (suc (suc (suc (suc n)))),
      pow-suc 2 (suc (suc (suc (suc (suc n))))),
      pow-suc 2 (suc (suc (suc (suc (suc (suc n)))))),
      pow-suc 2 (suc (suc (suc (suc (suc (suc (suc n))))))),
    )

shift_table : holds_below 8 (λ i. leb (2 ^ (8 * i) * 256) word) ≡ true
unfolding holds_below
shift_table = refl

-- The shift of a byte to one of eight places stays within 64 bits.
shift_fits : (i : ℕ) → i < 8 → 2 ^ (8 * i) * 256 ≤ word
shift_fits i h =
    leb→le _ word (holds_below_lem 8 (λ i. leb (2 ^ (8 * i) * 256) word) i shift_table h)

joined_byte :
    (i value byte : ℕ)
    → i < 8
    → byte < 256
    → value < 2 ^ (8 * i)
    → bit_or value (byte * 2 ^ (8 * i) % word) ≡ byte * 2 ^ (8 * i) + value
joined_byte i value byte near small low =
    let p = 2 ^ (8 * i) in
    let top : byte * p ≤ 255 * p = mul-le-mul_right p (omega arith) in
    let fits : p * 256 ≤ word = shift_fits i near in
    let kept : byte * p % word ≡ byte * p = omega arith in
    rw (kept) (bit_or_disjoint_below (8 * i) byte value low)

abbrev byte_at : ByteCursor → ℕ → ℕ → ℕ → ℕ
byte_at cursor offset count index =
    get_or cursor.bytes (source_index cursor.byte_order offset count index) 0

distribute :
    (i digit rest value : ℕ)
    → (digit * 2 ^ (8 * i) + value) + 2 ^ (8 * (i + 1)) * rest
      ≡ value + 2 ^ (8 * i) * (digit + 256 * rest)
distribute i digit rest value =
    let p = 2 ^ (8 * i) in
    let raised : 2 ^ (8 * (i + 1)) * rest ≡ p * (256 * rest) =
      ap (λ (t : ℕ). t * rest) (byte_power i) ∙ mul_assoc p 256 rest in
    omega (arith, raised, mul-add p digit (256 * rest), mul_comm digit p)

-- The rounds add the bytes that are to come, each at its place.
assemble_lem :
    (cursor : ByteCursor) (offset count left index value : ℕ)
    → All IsByte cursor.bytes
    → index + left ≤ 8
    → value < 2 ^ (8 * index)
    → assemble cursor offset count left index value
      ≡ value + 2 ^ (8 * index) * digit_sum (byte_at cursor offset count) index left
unfolding assemble digit_sum
assemble_lem cursor offset count zero index value h near low = omega arith
assemble_lem cursor offset count (suc left) index value h near low =
    let byte = byte_at cursor offset count index in
    let p = 2 ^ (8 * index) in
    let small : byte < 256 =
      get_or-All IsByte cursor.bytes (source_index cursor.byte_order offset count index) 0 h
        (omega arith) in
    let top : byte * p ≤ 255 * p = mul-le-mul_right p (omega arith) in
    let next_low : byte * p + value < 2 ^ (8 * (index + 1)) = omega (arith, byte_power index) in
    rw (joined_byte index value byte (omega arith) small low) (
      assemble_lem cursor offset count left (index + 1) (byte * p + value) h (omega arith) next_low
      ∙ distribute index byte (digit_sum (byte_at cursor offset count) (index + 1) left) value)

little_digits :
    (bytes : Bytes) (offset count index left : ℕ)
    → offset + (index + left) ≤ length bytes
    → digit_sum (λ i. get_or bytes (source_index little offset count i) 0) index left
      ≡ little_value (take left (drop (offset + index) bytes))
unfolding digit_sum little_value
little_digits bytes offset count index zero h = refl
little_digits bytes offset count index (suc left) h =
    let here : drop (offset + index) bytes
        ≡ get_or bytes (offset + index) 0 ∷ drop (suc (offset + index)) bytes =
      drop-get_or (offset + index) bytes 0 (omega arith) in
    let place : offset + (index + 1) ≡ suc (offset + index) = omega arith in
    let rest : digit_sum (λ i. get_or bytes (offset + i) 0) (index + 1) left
        ≡ little_value (take left (drop (suc (offset + index)) bytes)) =
      little_digits bytes offset count (index + 1) left (omega arith)
      ∙ ap (λ n. little_value (take left (drop n bytes))) place in
    rw (here) (ap (λ t. get_or bytes (offset + index) 0 + 256 * t) rest)

big_digits :
    (bytes : Bytes) (offset count index left : ℕ)
    → index + left ≡ count
    → offset + count ≤ length bytes
    → digit_sum (λ i. get_or bytes (source_index big offset count i) 0) index left
      ≡ big_value 0 (take left (drop offset bytes))
unfolding digit_sum big_value
big_digits bytes offset count index zero e h = refl
big_digits bytes offset count index (suc left) e h =
    let place : offset + count - 1 - index ≡ offset + left = omega arith in
    let digit : get_or bytes (offset + count - 1 - index) 0 ≡ get_or (drop offset bytes) left 0 =
      ap (λ n. get_or bytes n 0) place ∙ sym (get_or-drop offset left bytes 0) in
    let rest = big_digits bytes offset count (index + 1) left (omega arith) h in
    let last : take (suc left) (drop offset bytes)
        ≡ take left (drop offset bytes) ++ get_or (drop offset bytes) left 0 ∷ [] =
      take-get_or left (drop offset bytes) 0 (omega (arith, length-drop offset bytes)) in
    omega (
      arith,
      digit,
      rest,
      ap (big_value 0) last,
      big_value-append 0 (take left (drop offset bytes)) (get_or (drop offset bytes) left 0),
    )

width_bound : (width : IntegerWidth) → byte_count width ≤ 8
width_bound one_byte = omega arith
width_bound two_bytes = omega arith
width_bound four_bytes = omega arith
width_bound eight_bytes = omega arith

digits_lem :
    (order : ByteOrder) (bytes : Bytes) (offset count : ℕ)
    → offset + count ≤ length bytes
    → digit_sum (λ i. get_or bytes (source_index order offset count i) 0) 0 count
      ≡ value_of order (take count (drop offset bytes))
unfolding value_of
digits_lem little bytes offset count h =
    little_digits bytes offset count 0 count (omega arith)
    ∙ ap (λ n. little_value (take count (drop n bytes))) (omega arith)
digits_lem big bytes offset count h = big_digits bytes offset count 0 count (omega arith) h

has_range-leb :
    (cursor : ByteCursor) (offset size : ℕ)
    → has_range cursor offset size ≡ leb (offset + size) (length cursor.bytes)
unfolding has_range
has_range-leb cursor offset size = ground arith

-- An integer of an image of bytes is read when its field ends inside the image, and is then the
-- number that the bytes of the field write, the lowest first or the highest first by the order; the
-- shifts lose no bit. Nothing is read when the field does not fit.
pub uint_at_lem :
    (cursor : ByteCursor) (offset : ℕ) (width : IntegerWidth)
    → All IsByte cursor.bytes
    → uint_at cursor offset width ≡ (
        if leb (offset + byte_count width) (length cursor.bytes)
        then some (value_of cursor.byte_order (take (byte_count width) (drop offset cursor.bytes)))
        else none)
unfolding uint_at
uint_at_lem cursor offset width h =
    let count = byte_count width in
    let same : has_range cursor offset count ≡ leb (offset + count) (length cursor.bytes) =
      has_range-leb cursor offset count in
    elim (Bool-cases (leb (offset + count) (length cursor.bytes))) [
      | inr e ↦ rw (same, e) refl
      | inl e ↦
          let read : assemble cursor offset count count 0 0
              ≡ value_of cursor.byte_order (take count (drop offset cursor.bytes)) =
            assemble_lem cursor offset count count 0 0 h (omega (arith, width_bound width))
              (omega arith)
            ∙ omega
                (arith, digits_lem cursor.byte_order cursor.bytes offset count (leb→le _ _ e)) in
          rw (same, e) (ap some read)
    ]
