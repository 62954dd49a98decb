-- ===== src/Tests/Binaries.antt =====
-- Runs on images: src/binscan.
use bomwerk.Prelude.{
  find_first, find_last, ◌+◌, ◌≤◌, ◌≡◌, ◌↔◌, refl, leb, take, drop, if◌then◌else◌, true, false,
  some, none, [], ◌∷◌, ◌++◌, codes, length, less, is_empty, IsIncreasing,
}
use bomwerk.Tests.Data.{bytes_of}
use bomwerk.Core.Text.{trimmed}
use bomwerk.Core.Warnings.{Result}
use bomwerk.Binscan.Bounds.{normalize_and_cap}
use bomwerk.Binscan.Bounds.Sample.{normalize_and_cap_lem}
use bomwerk.Binscan.Cursor.{
  ByteCursor, ByteOrder, two_bytes, byte_count, has_range, uint_at, c_string_at,
}
use bomwerk.Binscan.Cursor.Integers.{value_of, uint_at_lem}
use bomwerk.Binscan.Cursor.Reads.{has_range_iff, IsStringAt, c_string_at_iff}
use bomwerk.Binscan.Archive.{parse_decimal_field, ArchiveContents}
use bomwerk.Binscan.Archive.Decimal.{IsNumber, parse_decimal_field_iff}
use bomwerk.Binscan.Archive.Reader.{BoundedFileRead, read_archive}
use bomwerk.Binscan.Archive.Reader.Walk.{HasMemberNames, read_archive_lem}

abbrev image : ByteCursor
image = record { bytes = codes "libz" ++ 0 ∷ codes "so"; byte_order = ByteOrder.little }

has_range_iff_run : (has_range image 3 4 ≡ true) ↔ (3 + 4 ≤ length image.bytes)
has_range_iff_run = has_range_iff image 3 4

c_string_at_iff_example :
    (c_string_at image 0 64 ≡ some (codes "libz")) ↔ IsStringAt image 0 64 (codes "libz")
c_string_at_iff_example = c_string_at_iff image 0 64 (codes "libz")

normalize_and_cap_lem_run :
    IsIncreasing less (normalize_and_cap (codes "b" ∷ codes "a" ∷ codes "b" ∷ []) 2).0
    × (length (normalize_and_cap (codes "b" ∷ codes "a" ∷ codes "b" ∷ []) 2).0 ≤ 2)
normalize_and_cap_lem_run = normalize_and_cap_lem (codes "b" ∷ codes "a" ∷ codes "b" ∷ []) 2

parse_decimal_field_iff_example : (parse_decimal_field (codes "120       ") ≡ some 120) ↔ (
    (is_empty (trimmed (codes "120       ")) ≡ false)
    × IsNumber 0 (trimmed (codes "120       ")) 120)
parse_decimal_field_iff_example = parse_decimal_field_iff (codes "120       ") 120

-- one member, `a.o`, of two bytes
abbrev archive : BoundedFileRead
archive = record {
  bytes =
      codes "!<arch>\n"
      ++ (codes "a.o/            "
          ++ (codes "0           0     0     644     2         `\n" ++ codes "xy"));
  readable = true;
  truncated = false;
}

read_archive_lem_example :
    (outcome : Result ArchiveContents) × (read_archive (codes "liba.a") archive ≡ some outcome)
    × HasMemberNames outcome
read_archive_lem_example = read_archive_lem (codes "liba.a") archive

uint_at_lem_example : uint_at image 1 two_bytes ≡ (
    if leb (1 + byte_count two_bytes) (length image.bytes)
    then some (value_of image.byte_order (take (byte_count two_bytes) (drop 1 image.bytes)))
    else none)
uint_at_lem_example = uint_at_lem image 1 two_bytes (bytes_of image.bytes refl)

-- Whitespace of any kind is dropped at both ends of a field.
padded_front : parse_decimal_field (codes "\t 12\n") ≡ some 12
unfolding parse_decimal_field trimmed find_first find_last
padded_front = refl
