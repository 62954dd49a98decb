-- ===== src/Binscan/Archive/Reader.antt =====
-- The walk of ArchiveReader in src/binscan/archive_read.cpp, and `read_archive`.
pub mod Walk
use bomwerk.Prelude.{
  ℕ, zero, suc, ◌+◌, ◌-◌, ◌*◌, ◌/◌, ◌%◌, Bool, true, false, not, ◌||◌, Option, none, some, List, [],
  ◌∷◌, ◌++◌, Bytes, codes, equal, is_empty, starts_with, substr, length, take, drop, ltb, leb, ◌==◌,
  if◌then◌else◌,
}
use bomwerk.Prelude.{to_text}
use bomwerk.Binscan.Archive.Index.{read_gnu_symbol_index}
use bomwerk.Core.Warnings.{Result, result, warn}
use bomwerk.Core.Warnings.Code.{WarningCode}
use bomwerk.Binscan.Bounds.{
  max_binary_bytes, max_symbol_table_entries, max_string_length, max_archive_members,
  max_symbol_sample, normalize_and_cap,
}
use bomwerk.Binscan.Cursor.{ByteOrder, IntegerWidth, byte_count, ByteCursor, uint_at, c_string_at}
use bomwerk.Binscan.Archive.{
  archive_magic, member_header_size, member_trailer, gnu_symbol_index_name, gnu_symbol_index64_name,
  gnu_long_name_table_name, bsd_symbol_index_name, parse_decimal_field, raw_member_name,
  resolve_member_name, ArchiveContents,
}

-- The reader's fields, with the count of the members that the walk keeps.
pub record ArchiveReader : Type 0 where
  pub label : Bytes
  pub outcome : Result ArchiveContents
  pub long_name_table : Bytes
  pub saw_symbol_index : Bool
  pub member_count : ℕ

abbrev set_contents : ArchiveReader → ArchiveContents → ArchiveReader
set_contents reader contents = record reader {
  outcome = record reader.outcome { value = contents };
}

abbrev reader_warn : Bytes → ArchiveReader → ArchiveReader
reader_warn message reader = record reader {
  outcome =
      warn WarningCode.binary_malformed_header (reader.label ++ (codes ": " ++ message))
        reader.outcome;
}

-- a warning that ends the walk
abbrev stop_walk : Bytes → ArchiveReader → ArchiveReader
stop_walk message reader =
    let warned = reader_warn message reader in
    set_contents warned (record warned.outcome.value { members_truncated = true })

-- What a round does with a member once its header is read: the reader, and whether the walk goes on.
add_member : Option Bytes → ArchiveReader → ArchiveReader
add_member none reader = reader
add_member (some name) reader =
    let contents = reader.outcome.value in
    record (set_contents reader
      (record contents { member_names = contents.member_names ++ name ∷ [] })) {
        member_count = reader.member_count + 1;
      }

unfoldable pub read_member_data : Bytes → Bytes → ArchiveReader → ArchiveReader × Bool
unfolding add_member
read_member_data raw_name member_data reader =
    if equal raw_name gnu_long_name_table_name
    then (record reader { long_name_table = member_data }, true)
    else if equal raw_name gnu_symbol_index_name || equal raw_name gnu_symbol_index64_name
    then (
      record (set_contents reader (
          read_gnu_symbol_index member_data (equal raw_name gnu_symbol_index64_name)
            reader.outcome.value)) { saw_symbol_index = true },
      true,
    )
    else if starts_with raw_name bsd_symbol_index_name
    then (set_contents reader (record reader.outcome.value { symbols_unavailable = true }), true)
    else if leb max_archive_members reader.member_count
    then (
      stop_walk
          (codes "holds more members than bomwerk lists ("
            ++ (to_text max_archive_members ++ codes "); the rest were skipped"))
          reader,
      false,
    )
    else (add_member (resolve_member_name raw_name reader.long_name_table member_data) reader, true)

-- the end of the walk, or the offset of the next header
pub data Step : Type 0 where
  stopped : ArchiveReader → Step
  next : ℕ → ArchiveReader → Step

abbrev at_byte : ℕ → Bytes
at_byte offset = codes " at byte " ++ to_text offset

after_data : Bytes → ℕ → ℕ → ArchiveReader × Bool → Step
after_data bytes data_offset size (reader, false) = stopped reader
after_data bytes data_offset size (reader, true) =
    let padded_size = size + size % 2 in
    if ltb (length bytes - data_offset) padded_size
    then stopped reader
    else next (data_offset + padded_size) reader

with_declared_size : Bytes → ℕ → Bytes → Option ℕ → ArchiveReader → Step
with_declared_size bytes offset header none reader = stopped (
    stop_walk
      (codes "member"
        ++ (at_byte offset ++ codes " declares an unreadable size; the rest was skipped"))
      reader)
with_declared_size bytes offset header (some size) reader =
    let data_offset = offset + member_header_size in
    if ltb (length bytes - data_offset) size
    then stopped (
        stop_walk
          (codes "member"
            ++ (at_byte offset
                ++ codes " declares a size running past the end of the file; the rest was skipped"))
          reader)
    else after_data bytes data_offset size
        (read_member_data (raw_member_name header) (substr bytes data_offset size) reader)

-- One round of the loop of `ArchiveReader::read`, at an offset before the end.
unfoldable pub read_member : Bytes → ℕ → ArchiveReader → Step
unfolding with_declared_size after_data
read_member bytes offset reader =
    let header = substr bytes offset member_header_size in
    if ltb (length bytes - offset) member_header_size
    then stopped (
        stop_walk
          (codes "member header"
            ++ (at_byte offset ++ codes " is cut off by the end of the file; the rest was skipped"))
          reader)
    else if not (equal (substr header 58 (length member_trailer)) member_trailer)
    then stopped (
        stop_walk
          (codes "member header" ++ (at_byte offset ++ codes " is malformed; the rest was skipped"))
          reader)
    else with_declared_size bytes offset header (parse_decimal_field (substr header 48 10)) reader

-- The loop of `ArchiveReader::read`; `none` when the fuel is used up.
unfoldable pub walk_members : ℕ → Bytes → ℕ → ArchiveReader → Option ArchiveReader
walk_members zero bytes offset reader = none
walk_members (suc fuel) bytes offset reader = elim (ltb offset (length bytes)) [
  | false ↦ some reader
  | true ↦ elim (read_member bytes offset reader) [
    | stopped last ↦ some last
    | next later_offset later ↦ walk_members fuel bytes later_offset later
  ]
]

-- what follows the loop
unfoldable pub finished : ArchiveReader → ArchiveReader
finished reader =
    let contents = reader.outcome.value in
    let (names, capped) = normalize_and_cap contents.member_names max_archive_members in
    set_contents reader (record contents {
      member_names = names;
      symbols_unavailable = not reader.saw_symbol_index || contents.symbols_unavailable;
    })

finished_outcome : Option ArchiveReader → Option (Result ArchiveContents)
finished_outcome none = none
finished_outcome (some reader) = some (finished reader).outcome

-- src/core/file_io.hpp
pub record BoundedFileRead : Type 0 where
  pub bytes : Bytes
  pub readable : Bool
  pub truncated : Bool

abbrev no_contents : ArchiveContents
no_contents = record {
  is_archive = false;
  member_names = [];
  indexed_symbols = [];
  members_truncated = false;
  symbols_truncated = false;
  symbols_unavailable = false;
}

new_reader : Bytes → ArchiveReader
new_reader label = record {
  label = label;
  outcome = result (record no_contents { is_archive = true });
  long_name_table = [];
  saw_symbol_index = false;
  member_count = 0;
}

-- `read_archive` on what the file read gave; every round of the walk takes at least a header.
unfoldable pub read_archive : Bytes → BoundedFileRead → Option (Result ArchiveContents)
unfolding finished_outcome new_reader
read_archive path file =
    if not file.readable
    then some (
        warn WarningCode.binary_unreadable (path ++ codes ": cannot be read; skipped")
          (result no_contents))
    else if file.truncated
    then some (
        warn WarningCode.binary_too_large
          (path
            ++ (codes ": larger than "
                ++ (to_text max_binary_bytes
                    ++ codes " bytes; refused rather than parsed from a partial image")))
          (result no_contents))
    else if not (starts_with file.bytes archive_magic)
    then some (result no_contents)
    else finished_outcome
        (walk_members (length file.bytes + 1) file.bytes (length archive_magic) (new_reader path))
