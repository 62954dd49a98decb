-- ===== src/Binscan/Cursor.antt =====
-- src/binscan/byte_cursor.hpp: bounds-checked reads of an untrusted image. Sizes and offsets are
-- std::size_t, 64 bits wide; a shift keeps its wrap-around.
pub mod Reads
pub mod Integers
use mathlib.Core.Option
use bomwerk.Prelude.{
  ℕ, zero, suc, ◌+◌, ◌-◌, ◌*◌, ◌^◌, ◌%◌, Bool, true, false, not, Option, none, some, [], ◌∷◌, Bytes,
  length, take, drop, get_or, ltb, leb, ◌==◌, bit_or, if◌then◌else◌,
}

pub data ByteOrder : Type 0 where
  little big : ByteOrder

pub data IntegerWidth : Type 0 where
  one_byte two_bytes four_bytes eight_bytes : IntegerWidth

abbrev pub byte_count : IntegerWidth → ℕ
byte_count one_byte = 1
byte_count two_bytes = 2
byte_count four_bytes = 4
byte_count eight_bytes = 8

pub record ByteCursor : Type 0 where
  pub bytes : Bytes
  pub byte_order : ByteOrder

-- std::size_t and std::uint64_t
abbrev pub word : ℕ
word = 2 ^ 64

unfoldable pub has_range : ByteCursor → ℕ → ℕ → Bool
has_range cursor offset size =
    if ltb (length cursor.bytes) size then false else leb offset (length cursor.bytes - size)

abbrev source_index : ByteOrder → ℕ → ℕ → ℕ → ℕ
source_index little offset count index = offset + index
source_index big offset count index = offset + count - 1 - index

-- The loop of `uint_at`: `left` rounds are to come, the next at `index`.
assemble : ByteCursor → ℕ → ℕ → ℕ → ℕ → ℕ → ℕ
assemble cursor offset count zero index value = value
assemble cursor offset count (suc left) index value =
    let byte = get_or cursor.bytes (source_index cursor.byte_order offset count index) 0 in
    assemble cursor offset count left (index + 1) (bit_or value (byte * 2 ^ (8 * index) % word))

unfoldable pub uint_at : ByteCursor → ℕ → IntegerWidth → Option ℕ
unfolding assemble
uint_at cursor offset width =
    if not (has_range cursor offset (byte_count width))
    then none
    else some (assemble cursor offset (byte_count width) (byte_count width) 0 0)

-- The loop of `c_string_at` over what stands behind the offset: the length before the first NUL.
unfoldable pub nul_within : ℕ → Bytes → Option ℕ
nul_within zero s = none
nul_within (suc searchable) [] = none
nul_within (suc searchable) (c ∷ s) =
    if c == 0 then some 0 else Option.map suc (nul_within searchable s)

unfoldable pub c_string_at : ByteCursor → ℕ → ℕ → Option Bytes
c_string_at cursor offset max_length =
    if ltb (length cursor.bytes) offset
    then none
    else let available = length cursor.bytes - offset in
      let searchable = if ltb max_length available then max_length else available in
      Option.map (λ size. take size (drop offset cursor.bytes))
        (nul_within searchable (drop offset cursor.bytes))

unfoldable pub subrange : ByteCursor → ℕ → ℕ → Option ByteCursor
subrange cursor offset size =
    if not (has_range cursor offset size)
    then none
    else some (record cursor { bytes = take size (drop offset cursor.bytes) })

unfoldable pub with_byte_order : ByteCursor → ByteOrder → ByteCursor
with_byte_order cursor order = record cursor { byte_order = order }
