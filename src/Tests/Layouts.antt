-- ===== src/Tests/Layouts.antt =====
-- Runs on the paths of source trees: src/heuristics/vendor_root.cpp.
use bomwerk.Prelude.{
  ◌≡◌, ◌↔◌, refl, false, none, some, List, [], ◌∷◌, Bytes, codes, equal, find_first,
}
use bomwerk.Heuristics.VendorRoot.{
  is_trigger_dir_name, is_test_or_fixture_dir_name, is_label, is_final_label, dns_labels,
  is_dns_namespace_container_name, chain_root, root_from, vendor_root_for,
}
use bomwerk.Heuristics.VendorRoot.Shape.{VendorRoot, vendor_root_for_iff}

abbrev nested_path : List Bytes
nested_path =
    codes "third_party" ∷ codes "libs" ∷ codes "zlib" ∷ codes "src" ∷ codes "inflate.c" ∷ []

abbrev nested_root : List Bytes
nested_root = codes "third_party" ∷ codes "libs" ∷ codes "zlib" ∷ []

nested : vendor_root_for nested_path ≡ some nested_root
unfolding vendor_root_for chain_root root_from is_trigger_dir_name is_test_or_fixture_dir_name
    is_dns_namespace_container_name equal find_first
nested = refl

below_tests :
    vendor_root_for (codes "tests" ∷ codes "vendor" ∷ codes "zlib" ∷ codes "a.c" ∷ []) ≡ none
unfolding vendor_root_for root_from is_trigger_dir_name is_test_or_fixture_dir_name equal
below_tests = refl

namespace_container :
    vendor_root_for (codes "vendor" ∷ codes "github.com" ∷ codes "a" ∷ codes "b.go" ∷ []) ≡ none
unfolding vendor_root_for chain_root root_from is_trigger_dir_name is_dns_namespace_container_name
    dns_labels is_label is_final_label equal find_first
namespace_container = refl

version_is_no_container : is_dns_namespace_container_name (codes "zlib-1.2.13") ≡ false
unfolding is_dns_namespace_container_name dns_labels is_label is_final_label find_first
version_is_no_container = refl

vendor_root_for_iff_example :
    (vendor_root_for nested_path ≡ some nested_root) ↔ VendorRoot nested_path nested_root
vendor_root_for_iff_example = vendor_root_for_iff nested_path nested_root
