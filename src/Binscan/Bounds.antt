-- ===== src/Binscan/Bounds.antt =====
-- src/binscan/bounds.hpp: the caps, and lists sorted, without repetitions and cut to a cap.
pub mod Sample
use bomwerk.Prelude.{
  ℕ, ◌*◌, Bool, true, false, List, Bytes, equal, less, length, leb, take, sort_by, unique_by,
  if◌then◌else◌,
}

abbrev pub max_binary_bytes : ℕ
max_binary_bytes = 128 * 1024 * 1024

abbrev pub max_symbol_table_entries : ℕ
max_symbol_table_entries = 200000

abbrev pub max_string_length : ℕ
max_string_length = 4096

abbrev pub max_archive_members : ℕ
max_archive_members = 4096

abbrev pub max_symbol_sample : ℕ
max_symbol_sample = 256

-- The list afterwards, and whether the cap was hit.
unfoldable pub normalize_and_cap : List Bytes → ℕ → List Bytes × Bool
normalize_and_cap values maximum =
    let normalized = unique_by equal (sort_by less values) in
    if leb (length normalized) maximum then (normalized, false) else (take maximum normalized, true)
