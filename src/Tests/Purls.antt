-- ===== src/Tests/Purls.antt =====
-- Runs on purls: src/core/purl.cpp.
use bomwerk.Prelude.{Fails-all_of, ◌≡◌, ◌↔◌, ◌==◌, ◌||◌, refl, true, ◌++◌, Bytes, codes}
use bomwerk.Core.Text.{equals_ascii_ignore_case, to_lower_ascii_char}
use bomwerk.Core.Purl.{
  is_purl_whitespace, parse, purl_identity_part, purl_type_of, purl_version_of, purl_name_of,
}
use bomwerk.Core.Purl.Parse.Accept.{IsPurl, canonical_of, accepted, parse_accepts}
use bomwerk.Core.Purl.Parse.Shape.{is_colon, is_slash}
use bomwerk.Core.Purl.Parse.Sound.{parse_iff}
use bomwerk.Core.Purl.Parse.Canonical.{parse-canonical}
use bomwerk.Core.Purl.Accessors.{IsPath, IsExtras, IsPlain, purl_of, purl_parts}

abbrev zlib_purl : Bytes
zlib_purl = codes "PKG:Conan/zlib@1.3.1"

pkg_ignoring_case : equals_ascii_ignore_case (codes "PKG") (codes "pkg") ≡ true
unfolding equals_ascii_ignore_case to_lower_ascii_char
pkg_ignoring_case = refl

zlib_purl-IsPurl : IsPurl zlib_purl
zlib_purl-IsPurl = record {
  scheme = codes "PKG";
  type = codes "Conan";
  rest = codes "zlib@1.3.1";
  whole = refl;
  scheme_tight = Fails-all_of is_purl_whitespace (codes "PKG") refl;
  type_tight = Fails-all_of is_purl_whitespace (codes "Conan") refl;
  rest_tight = Fails-all_of is_purl_whitespace (codes "zlib@1.3.1") refl;
  no_colon = Fails-all_of is_colon (codes "PKG") refl;
  no_slash = Fails-all_of is_slash (codes "Conan") refl;
  is_pkg = pkg_ignoring_case;
  type_some = λ h. cc;
  rest_some = λ h. cc;
}

parse_accepts_run : parse zlib_purl ≡ accepted (canonical_of (codes "Conan") (codes "zlib@1.3.1"))
unfolding zlib_purl-IsPurl
parse_accepts_run = parse_accepts zlib_purl-IsPurl

parse_iff_example : ((parse zlib_purl).complete ≡ true) ↔ IsPurl zlib_purl
parse_iff_example = parse_iff zlib_purl

parse-canonical_example :
    parse (parse zlib_purl).value.canonical ≡ accepted (parse zlib_purl).value.canonical
parse-canonical_example = parse-canonical zlib_purl ((parse_iff zlib_purl).1 zlib_purl-IsPurl)

angular-IsPlain : IsPlain (codes "npm") (codes "%40angular/") (codes "core") (codes "17.0.1")
angular-IsPlain = record {
  type_plain = Fails-all_of (λ c. c == b'?' || c == b'#') (codes "npm") refl;
  path_plain = Fails-all_of (λ c. c == b'?' || c == b'#') (codes "%40angular/") refl;
  name_plain = Fails-all_of (λ c. c == b'?' || c == b'#') (codes "core") refl;
  version_plain = Fails-all_of (λ c. c == b'?' || c == b'#') (codes "17.0.1") refl;
  type_whole = Fails-all_of is_slash (codes "npm") refl;
  name_whole = Fails-all_of is_slash (codes "core") refl;
  version_whole = Fails-all_of (λ c. c == b'@') (codes "17.0.1") refl;
}

purl_parts_run :
    (purl_identity_part (
        purl_of (codes "npm") (codes "%40angular/") (codes "core") (codes "17.0.1")
        ++ codes "?arch=any")
      ≡ purl_of (codes "npm") (codes "%40angular/") (codes "core") (codes "17.0.1"))
    × (purl_type_of (purl_of (codes "npm") (codes "%40angular/") (codes "core") (codes "17.0.1"))
        ≡ codes "npm")
    × (purl_name_of (purl_of (codes "npm") (codes "%40angular/") (codes "core") (codes "17.0.1"))
        ≡ codes "core")
    × (purl_version_of (purl_of (codes "npm") (codes "%40angular/") (codes "core") (codes "17.0.1"))
        ≡ codes "17.0.1")
purl_parts_run =
    purl_parts (codes "npm") (codes "%40angular/") (codes "core") (codes "17.0.1") angular-IsPlain
      (codes "?arch=any") (IsPath.under (codes "%40angular"))
      (IsExtras.present b'?' (codes "arch=any") refl)
