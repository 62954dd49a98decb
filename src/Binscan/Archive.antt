-- ===== src/Binscan/Archive.antt =====
-- src/binscan/archive_read.cpp: the members of an `ar` archive and a sample of its symbol index.
-- The file is what core::read_file_bounded gave; a path is the text that prints it.
pub mod Decimal
pub mod Index
pub mod Reader
use bomwerk.Prelude.{
  ℕ, zero, suc, ◌+◌, ◌-◌, ◌*◌, ◌/◌, ◌%◌, ◌^◌, Bool, true, false, not, ◌&&◌, ◌||◌, Option, none,
  some, List, [], ◌∷◌, ◌++◌, Bytes, codes, equal, is_empty, starts_with, ends_with, substr,
  find_first, length, take, drop, ltb, leb, ◌==◌, if◌then◌else◌,
}
use bomwerk.Core.Text.{trimmed}
use bomwerk.Core.Warnings.{Result, result, warn}
use bomwerk.Core.Warnings.Code.{WarningCode}
use bomwerk.Binscan.Bounds.{
  max_symbol_table_entries, max_string_length, max_archive_members, max_symbol_sample,
  normalize_and_cap,
}
use bomwerk.Binscan.Cursor.{
  ByteOrder, IntegerWidth, byte_count, ByteCursor, uint_at, c_string_at, word,
}

abbrev pub archive_magic : Bytes
archive_magic = codes "!<arch>\n"

abbrev pub member_header_size : ℕ
member_header_size = 60

abbrev pub member_trailer : Bytes
member_trailer = codes "`\n"

abbrev pub gnu_symbol_index_name : Bytes
gnu_symbol_index_name = codes "/"

abbrev pub gnu_symbol_index64_name : Bytes
gnu_symbol_index64_name = codes "/SYM64/"

abbrev pub gnu_long_name_table_name : Bytes
gnu_long_name_table_name = codes "//"

abbrev pub bsd_symbol_index_name : Bytes
bsd_symbol_index_name = codes "__.SYMDEF"

abbrev pub bsd_long_name_prefix : Bytes
bsd_long_name_prefix = codes "#1/"

-- The loop of `parse_decimal_field`; UINT64_MAX is `word - 1`.
decimal_from : ℕ → Bytes → Option ℕ
decimal_from value [] = some value
decimal_from value (c ∷ digits) =
    let digit = c - b'0' in
    let rest = decimal_from (value * 10 + digit) digits in
    if ltb c b'0' || ltb b'9' c
    then none
    else if ltb ((word - 1 - digit) / 10) value
    then none
    else rest

unfoldable pub parse_decimal_field : Bytes → Option ℕ
unfolding decimal_from
parse_decimal_field field =
    let digits = trimmed field in if is_empty digits then none else decimal_from 0 digits

abbrev pub raw_member_name : Bytes → Bytes
raw_member_name header = trimmed (substr header 0 16)

unfoldable pub is_bookkeeping_member : Bytes → Bool
is_bookkeeping_member name =
    equal name gnu_symbol_index_name
    || equal name gnu_symbol_index64_name
    || equal name gnu_long_name_table_name
    || starts_with name bsd_symbol_index_name

abbrev non_empty : Bytes → Option Bytes
non_empty name = if is_empty name then none else some name

abbrev up_to : (ℕ → Bool) → Bytes → Bytes
up_to p name = elim (find_first p name) [ none ↦ name | some terminator ↦ take terminator name ]

-- `#1/<length>`: the name is the front of the member's data
bsd_long_name : Option ℕ → Bytes → Option Bytes
bsd_long_name none member_data = none
bsd_long_name (some size) member_data =
    if ltb (length member_data) size || ltb max_string_length size
    then none
    else non_empty (up_to (λ c. c == 0) (take size member_data))

-- `/<offset>`: the name stands in the table of long names
gnu_long_name : Option ℕ → Bytes → Option Bytes
gnu_long_name none long_name_table = none
gnu_long_name (some offset) long_name_table =
    if leb (length long_name_table) offset
    then none
    else let name = up_to (λ c. c == b'/' || c == b'\n') (drop offset long_name_table) in
      non_empty (if ltb max_string_length (length name) then take max_string_length name else name)

abbrev without_last : Bytes → Bytes
without_last s = take (length s - 1) s

unfoldable pub resolve_member_name : Bytes → Bytes → Bytes → Option Bytes
unfolding bsd_long_name gnu_long_name
resolve_member_name raw_name long_name_table member_data =
    if is_empty raw_name || is_bookkeeping_member raw_name
    then none
    else if starts_with raw_name bsd_long_name_prefix
    then bsd_long_name (parse_decimal_field (drop 3 raw_name)) member_data
    else if starts_with raw_name (codes "/")
    then gnu_long_name (parse_decimal_field (drop 1 raw_name)) long_name_table
    else non_empty (if ends_with raw_name (codes "/") then without_last raw_name else raw_name)

pub record ArchiveContents : Type 0 where
  pub is_archive : Bool
  pub member_names : List Bytes
  pub indexed_symbols : List Bytes
  pub members_truncated : Bool
  pub symbols_truncated : Bool
  pub symbols_unavailable : Bool
