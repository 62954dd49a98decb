-- ===== src/Parsers/Conan.antt =====
-- src/parsers/cpp/conan_ref.cpp: references to conan packages, and their purls.
pub mod Purl
use bomwerk.Prelude.{
  ℕ, ◌+◌, Bool, true, false, not, ◌&&◌, none, some, [], ◌∷◌, ◌++◌, Bytes, codes, is_empty,
  starts_with, find_first, length, take, drop, ◌-◌, ◌==◌, if◌then◌else◌,
}
use bomwerk.Core.Text.{trimmed}
use bomwerk.Core.Percent.{percent_encode}

pub record ConanReference : Type 0 where
  pub name : Bytes
  pub version : Bytes
  pub user : Bytes
  pub channel : Bytes
  pub revision : Bytes

-- The text before the first separator, and what follows it.
unfoldable pub split_once : Bytes → ℕ → Bytes × Bytes
split_once text separator = elim (find_first (λ c. c == separator) text) [
  | none ↦ (text, [])
  | some position ↦ (take position text, drop (position + 1) text)
]

unfoldable pub parse_conan_reference : Bytes → ConanReference
parse_conan_reference reference_text =
    let (before_hash, after_hash) = split_once (trimmed reference_text) b'#' in
    let (revision_text, timestamp) = split_once after_hash b'%' in
    let (name_version, user_channel) = split_once before_hash b'@' in
    let (user, channel) = split_once user_channel b'/' in
    let (name, version) = split_once name_version b'/' in
    record {
      name = trimmed name;
      version = trimmed version;
      user = if is_empty user_channel then [] else trimmed user;
      channel = if is_empty user_channel then [] else trimmed channel;
      revision = trimmed revision_text;
    }

unfoldable pub is_conan_version_range : Bytes → Bool
is_conan_version_range version = starts_with version (codes "[")

-- one qualifier with the `&` behind it, when it has a value
abbrev pub qualifier : Bytes → Bytes → Bytes
qualifier key value =
    if is_empty value then [] else key ++ (b'=' ∷ (percent_encode value ++ b'&' ∷ []))

abbrev pub qualifiers_of : ConanReference → Bool → Bytes
qualifiers_of reference include_recipe_revision =
    qualifier (codes "channel") reference.channel
    ++ ((if include_recipe_revision then qualifier (codes "rrev") reference.revision else [])
        ++ qualifier (codes "user") reference.user)

unfoldable pub build_conan_purl : ConanReference → Bool → Bytes
build_conan_purl reference include_recipe_revision =
    let name = if is_empty reference.name then codes "unknown" else reference.name in
    let qualifiers = qualifiers_of reference include_recipe_revision in
    codes "pkg:conan/"
    ++ (percent_encode name
        ++ ((if is_empty reference.version then [] else b'@' ∷ percent_encode reference.version)
            ++ (if is_empty qualifiers
                then []
                else b'?' ∷ take (length qualifiers - 1) qualifiers)))
