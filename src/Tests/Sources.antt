-- ===== src/Tests/Sources.antt =====
-- Runs on git and conan sources: src/core/git_url.cpp, src/parsers/cpp/conan_ref.cpp.
use bomwerk.Prelude.{◌≡◌, true, Bytes, codes}
use bomwerk.Core.Purl.{parse}
use bomwerk.Core.Purl.Parse.Accept.{accepted}
use bomwerk.Core.GitUrl.{build_git_purl}
use bomwerk.Core.GitUrl.Purl.{parse-build_git_purl}
use bomwerk.Parsers.Conan.{ConanReference, parse_conan_reference, build_conan_purl}
use bomwerk.Parsers.Conan.Purl.{parse-build_conan_purl}

abbrev vcpkg_url : Bytes
vcpkg_url = codes "git@github.com:Microsoft/vcpkg.git"

parse-build_git_purl_example :
    parse (build_git_purl vcpkg_url (codes "2024.01.12") (codes "vcpkg"))
    ≡ accepted (build_git_purl vcpkg_url (codes "2024.01.12") (codes "vcpkg"))
parse-build_git_purl_example = parse-build_git_purl vcpkg_url (codes "2024.01.12") (codes "vcpkg")

abbrev zlib_reference : ConanReference
zlib_reference = parse_conan_reference (codes "zlib/1.2.13@user/stable#rrev%170")

parse-build_conan_purl_example :
    parse (build_conan_purl zlib_reference true) ≡ accepted (build_conan_purl zlib_reference true)
parse-build_conan_purl_example = parse-build_conan_purl zlib_reference true
