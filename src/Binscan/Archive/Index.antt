-- ===== src/Binscan/Archive/Index.antt =====
-- The symbol index of an archive: ArchiveReader::read_gnu_symbol_index of
-- src/binscan/archive_read.cpp.
use bomwerk.Prelude.{
  ℕ, zero, suc, ◌+◌, ◌*◌, Bool, true, not, ◌||◌, Option, none, some, List, [], ◌∷◌, ◌++◌, Bytes,
  is_empty, length, ltb, ◌==◌, if◌then◌else◌,
}
use bomwerk.Binscan.Bounds.{
  max_symbol_table_entries, max_string_length, max_symbol_sample, normalize_and_cap,
}
use bomwerk.Binscan.Cursor.{ByteOrder, IntegerWidth, byte_count, ByteCursor, uint_at, c_string_at}
use bomwerk.Binscan.Archive.{ArchiveContents}

-- The loop over the names of the symbol index, for so many entries from `name_offset` on.
unfoldable pub indexed_names : ℕ → ByteCursor → ℕ → List Bytes
indexed_names zero index name_offset = []
indexed_names (suc entries) index name_offset =
    elim (c_string_at index name_offset max_string_length) [
      | none ↦ []
      | some name ↦
          let later = indexed_names entries index (name_offset + length name + 1) in
          if is_empty name then later else name ∷ later
    ]

with_declared_count : Option ℕ → IntegerWidth → ByteCursor → ArchiveContents → ArchiveContents
with_declared_count none width index contents = record contents { symbols_unavailable = true }
with_declared_count (some declared_count) width index contents =
    let capped_count =
      if ltb max_symbol_table_entries declared_count
      then max_symbol_table_entries
      else declared_count in
    let name_offset = byte_count width + byte_count width * capped_count in
    let (sample, capped) =
      normalize_and_cap (contents.indexed_symbols ++ indexed_names capped_count index name_offset)
        max_symbol_sample in
    record contents {
      indexed_symbols = sample;
      symbols_truncated =
          capped || (not (declared_count == capped_count) || contents.symbols_truncated);
    }

unfoldable pub read_gnu_symbol_index : Bytes → Bool → ArchiveContents → ArchiveContents
unfolding with_declared_count
read_gnu_symbol_index index_data is_64_bit contents =
    let index : ByteCursor = record { bytes = index_data; byte_order = ByteOrder.big } in
    let width = if is_64_bit then IntegerWidth.eight_bytes else IntegerWidth.four_bytes in
    with_declared_count (uint_at index 0 width) width index contents
