-- ===== src/Heuristics/VendorRoot.antt =====
-- src/heuristics/vendor_root.cpp: the vendored library that a file belongs to. A path is the list of
-- its components, the file's name the last of them.
pub mod Shape
use bomwerk.Prelude.{
  ℕ, zero, suc, ◌+◌, Bool, true, false, not, ◌&&◌, ◌||◌, Option, none, some, List, [], ◌∷◌, ◌++◌,
  Bytes, codes, equal, between, all_of, any_of, find_first, is_empty, length, take, drop, get_or,
  ltb, ◌==◌, ◌-◌, if◌then◌else◌,
}

abbrev pub trigger_dir_names : List Bytes
trigger_dir_names =
    codes "third_party"
    ∷ codes "thirdparty"
    ∷ codes "vendor"
    ∷ codes "external"
    ∷ codes "deps"
    ∷ codes "libs"
    ∷ []

abbrev pub test_or_fixture_dir_names : List Bytes
test_or_fixture_dir_names =
    codes "test"
    ∷ codes "tests"
    ∷ codes "testdata"
    ∷ codes "fixture"
    ∷ codes "fixtures"
    ∷ codes "__tests__"
    ∷ codes "__fixtures__"
    ∷ []

unfoldable pub is_trigger_dir_name : Bytes → Bool
is_trigger_dir_name name = any_of (λ trigger. equal name trigger) trigger_dir_names

unfoldable pub is_test_or_fixture_dir_name : Bytes → Bool
is_test_or_fixture_dir_name name =
    any_of (λ candidate. equal name candidate) test_or_fixture_dir_names

abbrev pub is_ascii_alpha : ℕ → Bool
is_ascii_alpha c = between b'a' b'z' c || between b'A' b'Z' c

abbrev pub is_ascii_alphanumeric : ℕ → Bool
is_ascii_alphanumeric c = is_ascii_alpha c || between b'0' b'9' c

-- What the loop asks of every label.
unfoldable pub is_label : Bytes → Bool
is_label label =
    if is_empty label
      || (not (is_ascii_alphanumeric (get_or label 0 0))
          || not (is_ascii_alphanumeric (get_or label (length label - 1) 0)))
    then false
    else all_of (λ c. is_ascii_alphanumeric c || c == b'-') label

unfoldable pub is_final_label : Bytes → Bool
is_final_label label = if ltb (length label) 2 then false else all_of is_ascii_alpha label

-- The loop on what is left of the name.
unfoldable pub dns_labels : ℕ → Bytes → Bool
unfolding is_label is_final_label
dns_labels zero rest = false
dns_labels (suc fuel) rest = elim (is_empty rest) [
  | true ↦ false
  | false ↦ elim (find_first (λ c. c == b'.') rest) [
    | none ↦ is_label rest && is_final_label rest
    | some dot ↦ is_label (take dot rest) && dns_labels fuel (drop (dot + 1) rest)
  ]
]

unfoldable pub is_dns_namespace_container_name : Bytes → Bool
unfolding dns_labels
is_dns_namespace_container_name name = elim (find_first (λ c. c == b'.') name) [
  | none ↦ false
  | some dot ↦ dns_labels (suc (length name)) name
]

-- path == relative_path.end()
abbrev pub at_end : List Bytes → Bool
at_end [] = true
at_end (component ∷ path) = false

-- The loop over `subfolder`; `path` starts with it.
unfoldable pub chain_root : List Bytes → List Bytes → Option (List Bytes)
chain_root trigger_chain [] = none
chain_root trigger_chain (subfolder ∷ path) = elim (at_end path) [
  | true ↦ none
  | false ↦ elim (is_trigger_dir_name subfolder) [
    | true ↦ chain_root (trigger_chain ++ subfolder ∷ []) path
    | false ↦ elim (is_dns_namespace_container_name subfolder) [
      | true ↦ none
      | false ↦ some (trigger_chain ++ subfolder ∷ [])
    ]
  ]
]

-- The loop over `component`; `path` starts with it.
unfoldable pub root_from : Bool → List Bytes → List Bytes → Option (List Bytes)
unfolding chain_root
root_from below accumulated [] = none
root_from below accumulated (component ∷ path) = elim (at_end path) [
  | true ↦ none
  | false ↦ elim (is_trigger_dir_name component) [
    | true ↦ elim below [ true ↦ none | false ↦ chain_root (accumulated ++ component ∷ []) path ]
    | false ↦
        root_from (below || is_test_or_fixture_dir_name component) (accumulated ++ component ∷ [])
          path
  ]
]

unfoldable pub vendor_root_for : List Bytes → Option (List Bytes)
unfolding root_from
vendor_root_for relative_path = root_from false [] relative_path
