-- ===== src/Core/GitUrl/Purl.antt =====
-- `build_git_purl` of src/core/git_url.cpp, read by `Purl::parse` of src/core/purl.cpp.
use bomwerk.Prelude.{
  ◌≡◌, ◌≢◌, refl, Bool, true, false, not, ◌&&◌, [], ◌∷◌, ◌++◌, Bytes, All-append, Fails,
  Fails-all_of, codes, is_empty, equal, if◌then◌else◌, Bool-cases, inl, inr,
}
use bomwerk.Core.Text.{trimmed, to_lower_ascii, to_lower_ascii_char, normalized_object_id}
use bomwerk.Core.Percent.{percent_encode, percent_encode_purl_namespace}
use bomwerk.Core.Purl.{is_purl_whitespace, parse}
use bomwerk.Core.Purl.Parse.Shape.{NoSpace, is_slash}
use bomwerk.Core.Purl.Parse.Accept.{accepted, append-ne-nil}
use bomwerk.Core.Purl.Encoded.{
  IsType, percent_encode-NoSpace, percent_encode_purl_namespace-NoSpace, parse-IsType, append-back,
  version-NoSpace,
}
use bomwerk.Core.GitUrl.{
  forge_type_in, forge_type_for_host, parse_git_remote, version_part, forge_purl, generic_purl,
  name_or_unknown, build_git_purl,
}

plain-IsType :
    (type : Bytes) → NoSpace type → Fails is_slash type → to_lower_ascii type ≡ type → IsType type
plain-IsType type solid whole lower = record { solid = solid; whole = whole; lower = lower }

github-IsType : IsType (codes "github")
unfolding to_lower_ascii to_lower_ascii_char
github-IsType =
    plain-IsType (codes "github") (Fails-all_of is_purl_whitespace (codes "github") refl)
      (Fails-all_of is_slash (codes "github") refl) refl

gitlab-IsType : IsType (codes "gitlab")
unfolding to_lower_ascii to_lower_ascii_char
gitlab-IsType =
    plain-IsType (codes "gitlab") (Fails-all_of is_purl_whitespace (codes "gitlab") refl)
      (Fails-all_of is_slash (codes "gitlab") refl) refl

bitbucket-IsType : IsType (codes "bitbucket")
unfolding to_lower_ascii to_lower_ascii_char
bitbucket-IsType =
    plain-IsType (codes "bitbucket") (Fails-all_of is_purl_whitespace (codes "bitbucket") refl)
      (Fails-all_of is_slash (codes "bitbucket") refl) refl

generic-IsType : IsType (codes "generic")
unfolding to_lower_ascii to_lower_ascii_char
generic-IsType =
    plain-IsType (codes "generic") (Fails-all_of is_purl_whitespace (codes "generic") refl)
      (Fails-all_of is_slash (codes "generic") refl) refl

empty-IsType : IsType []
unfolding to_lower_ascii
empty-IsType = plain-IsType [] tt tt refl

choice-IsType : (b : Bool) (x y : Bytes) → IsType x → IsType y → IsType (if b then x else y)
choice-IsType true x y h k = h
choice-IsType false x y h k = k

forge_type_for_host-IsType : (host : Bytes) → IsType (forge_type_for_host host)
unfolding forge_type_for_host forge_type_in
forge_type_for_host-IsType host =
    choice-IsType (equal host (codes "github.com")) _ _ github-IsType (
      choice-IsType (equal host (codes "gitlab.com")) _ _ gitlab-IsType
        (choice-IsType (equal host (codes "bitbucket.org")) _ _ bitbucket-IsType empty-IsType))

full : (s : Bytes) (b : Bool) → (not (is_empty s) && b) ≡ true → s ≢ []
full [] b h = cc
full (c ∷ s) b h = λ e. cc

forge_purl_lem :
    (type owner repo version : Bytes)
    → IsType type
    → type ≢ []
    → parse (forge_purl type owner repo version) ≡ accepted (forge_purl type owner repo version)
forge_purl_lem type owner repo version t some_type =
    let namespace = percent_encode_purl_namespace (to_lower_ascii owner) in
    let rest = percent_encode (to_lower_ascii repo) ++ version_part version in
    parse-IsType type (namespace ++ b'/' ∷ rest) t some_type
      (All-append _ namespace (b'/' ∷ rest)
        (percent_encode_purl_namespace-NoSpace (to_lower_ascii owner))
        (
          refl,
          All-append _ (percent_encode (to_lower_ascii repo)) (version_part version)
              (percent_encode-NoSpace (to_lower_ascii repo)) (version-NoSpace version),
        ))
      (append-ne-nil namespace b'/' rest)

generic_purl_lem :
    (name version url : Bytes)
    → parse (generic_purl name version url) ≡ accepted (generic_purl name version url)
generic_purl_lem name version url =
    let address = percent_encode (codes "git+" ++ trimmed url) in
    let qualifier = codes "?vcs_url=" ++ address in
    parse-IsType (codes "generic") (percent_encode name ++ (version_part version ++ qualifier))
      generic-IsType (λ e. cc)
      (All-append _ (percent_encode name) (version_part version ++ qualifier)
        (percent_encode-NoSpace name)
        (All-append _ (version_part version) qualifier (version-NoSpace version) (
          All-append _ (codes "?vcs_url=") address
            (Fails-all_of is_purl_whitespace (codes "?vcs_url=") refl)
            (percent_encode-NoSpace (codes "git+" ++ trimmed url)))))
      (append-back (percent_encode name) (version_part version ++ qualifier)
        (append-back (version_part version) qualifier (λ e. cc)))

-- Whatever a manifest gives as address, commit and name of a git source, the purl that is built of
-- them is accepted without a warning, and is its own canonical form.
pub parse-build_git_purl :
    (url commit fallback_name : Bytes)
    → parse (build_git_purl url commit fallback_name)
      ≡ accepted (build_git_purl url commit fallback_name)
unfolding build_git_purl
parse-build_git_purl url commit fallback_name =
    let remote = parse_git_remote url in
    let type = forge_type_for_host remote.host in
    let version = normalized_object_id commit in
    let named = not (is_empty remote.owner) && not (is_empty remote.repo) in
    elim (Bool-cases (not (is_empty type) && named)) [
      | inl e ↦
          rw (e, build_git_purl)
            (forge_purl_lem type remote.owner remote.repo version
              (forge_type_for_host-IsType remote.host) (full type named e))
      | inr e ↦
          rw (e, build_git_purl)
            (generic_purl_lem (name_or_unknown remote.repo fallback_name) version url)
    ]
