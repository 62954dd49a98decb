-- ===== src/Core/GitUrl.antt =====
-- src/core/git_url.cpp: the address of a git remote, relative addresses, and purls of git sources.
pub mod Purl
use mathlib.Core.Option
use bomwerk.Prelude.{
  ℕ, zero, suc, ◌+◌, ◌-◌, Bool, true, false, not, ◌&&◌, ◌||◌, Option, none, some, List, [], ◌∷◌,
  ◌++◌, Bytes, codes, equal, is_empty, starts_with, ends_with, find_first, find_last, length, take,
  drop, ltb, ◌==◌, if◌then◌else◌,
}
use bomwerk.Core.Text.{trimmed, to_lower_ascii, normalized_object_id}
use bomwerk.Core.Percent.{percent_encode, percent_encode_purl_namespace}

pub record ForgeHost : Type 0 where
  pub host : Bytes
  pub purl_type : Bytes

abbrev pub forge_hosts : List ForgeHost
forge_hosts =
    record { host = codes "github.com"; purl_type = codes "github" }
    ∷ record { host = codes "gitlab.com"; purl_type = codes "gitlab" }
    ∷ record { host = codes "bitbucket.org"; purl_type = codes "bitbucket" }
    ∷ []

-- the loop of `forge_type_for_host`
unfoldable pub forge_type_in : List ForgeHost → Bytes → Bytes
forge_type_in [] host = []
forge_type_in (forge ∷ forges) host =
    let later = forge_type_in forges host in
    if equal host forge.host then forge.purl_type else later

unfoldable pub forge_type_for_host : Bytes → Bytes
forge_type_for_host host = forge_type_in forge_hosts host

pub record GitRemote : Type 0 where
  pub host : Bytes
  pub owner : Bytes
  pub repo : Bytes

-- text.find(needle), for a needle that is not empty
find_text : Bytes → Bytes → Option ℕ
find_text needle [] = none
find_text needle (c ∷ s) =
    if starts_with (c ∷ s) needle then some 0 else Option.map suc (find_text needle s)

abbrev is_slash : ℕ → Bool
is_slash c = c == b'/'

-- while the text ends with a slash, that is taken away
unfoldable pub without_trailing_slashes : Bytes → Bytes
without_trailing_slashes [] = []
without_trailing_slashes (c ∷ s) = elim (without_trailing_slashes s) [
  | [] ↦ if c == b'/' then [] else c ∷ []
  | d ∷ t ↦ c ∷ d ∷ t
]

abbrev behind_first : (ℕ → Bool) → Bytes → Bytes
behind_first p s = elim (find_first p s) [ none ↦ s | some i ↦ drop (i + 1) s ]

abbrev before_first : (ℕ → Bool) → Bytes → Bytes
before_first p s = elim (find_first p s) [ none ↦ s | some i ↦ take i s ]

-- host/owner/repo…, when the text is of a recognized form
host_and_path : Bytes → Option Bytes
unfolding find_text
host_and_path working = elim (find_text (codes "://") working) [
  | some scheme_position ↦ some (drop (scheme_position + 3) working)
  | none ↦
      Option.map
        (λ colon_position. take colon_position working ++ b'/' ∷ drop (colon_position + 1) working)
        (find_first (λ c. c == b':') working)
]

abbrev without_git_suffix : Bytes → Bytes
without_git_suffix path =
    if ltb 4 (length path) && ends_with path (codes ".git")
    then take (length path - 4) path
    else path

abbrev no_remote : GitRemote
no_remote = record { host = []; owner = []; repo = [] }

remote_at : Bytes → Option ℕ → GitRemote
remote_at whole first_slash =
    let host_segment : Bytes = elim first_slash [ none ↦ whole | some i ↦ take i whole ] in
    let path_segment : Bytes = elim first_slash [ none ↦ [] | some i ↦ drop (i + 1) whole ] in
    let host =
      to_lower_ascii (before_first (λ c. c == b':') (behind_first (λ c. c == b'@') host_segment)) in
    let path = without_git_suffix (without_trailing_slashes path_segment) in
    elim (find_last is_slash path) [
      | none ↦ record { host = host; owner = []; repo = path }
      | some last_slash ↦ record {
        host = host;
        owner = take last_slash path;
        repo = drop (last_slash + 1) path;
      }
    ]

unfoldable pub parse_git_remote : Bytes → GitRemote
unfolding host_and_path remote_at
parse_git_remote url =
    let working = trimmed url in
    if is_empty working then no_remote else elim (host_and_path working) [
      | none ↦ no_remote
      | some whole ↦ remote_at whole (find_first is_slash whole)
    ]

-- The loop of `resolve_relative_url`: the base and the remainder as the rounds leave them. A round
-- that is not the last takes two bytes of the remainder at least.
resolve_loop : ℕ → Bytes → Bytes → Bytes × Bytes
resolve_loop zero base remainder = (base, remainder)
resolve_loop (suc fuel) base remainder = elim (starts_with remainder (codes "./")) [
  | true ↦ resolve_loop fuel base (drop 2 remainder)
  | false ↦ elim (starts_with remainder (codes "../")) [
    | false ↦ (base, remainder)
    | true ↦ elim (find_last is_slash base) [
      | none ↦ (base, drop 3 remainder)
      | some last_slash ↦ resolve_loop fuel (take last_slash base) (drop 3 remainder)
    ]
  ]
]

abbrev joined : Bytes × Bytes → Bytes
joined (base, remainder) = if is_empty base then remainder else base ++ b'/' ∷ remainder

unfoldable pub resolve_relative_url : Bytes → Bytes → Bytes
unfolding resolve_loop
resolve_relative_url base relative =
    let is_relative = starts_with relative (codes "./") || starts_with relative (codes "../") in
    if not is_relative || is_empty base
    then relative
    else joined (resolve_loop (length relative + 1) (without_trailing_slashes base) relative)

-- "@" and the version, when there is one
abbrev pub version_part : Bytes → Bytes
version_part version = if is_empty version then [] else b'@' ∷ percent_encode version

abbrev pub forge_purl : Bytes → Bytes → Bytes → Bytes → Bytes
forge_purl forge_type owner repo version =
    codes "pkg:"
    ++ (forge_type
        ++ b'/'
          ∷ (percent_encode_purl_namespace (to_lower_ascii owner)
              ++ b'/' ∷ (percent_encode (to_lower_ascii repo) ++ version_part version)))

abbrev pub generic_purl : Bytes → Bytes → Bytes → Bytes
generic_purl name version url =
    codes "pkg:"
    ++ (codes "generic"
        ++ b'/'
          ∷ (percent_encode name
              ++ (version_part version
                  ++ (codes "?vcs_url=" ++ percent_encode (codes "git+" ++ trimmed url)))))

abbrev pub name_or_unknown : Bytes → Bytes → Bytes
name_or_unknown repo fallback_name =
    let known = if is_empty repo then fallback_name else repo in
    if is_empty known then codes "unknown" else known

unfoldable pub build_git_purl : Bytes → Bytes → Bytes → Bytes
build_git_purl url commit fallback_name =
    let remote = parse_git_remote url in
    let forge_type = forge_type_for_host remote.host in
    let version = normalized_object_id commit in
    if not (is_empty forge_type) && (not (is_empty remote.owner) && not (is_empty remote.repo))
    then forge_purl forge_type remote.owner remote.repo version
    else generic_purl (name_or_unknown remote.repo fallback_name) version url
