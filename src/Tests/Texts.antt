-- ===== src/Tests/Texts.antt =====
-- Runs on texts: src/core/text.cpp, src/core/percent.cpp, src/core/base64.cpp.
use bomwerk.Prelude.{◌≡◌, ◌↔◌, refl, true, inr, some, ◌∷◌, ◌++◌, Bytes, codes, All, IsByte}
use bomwerk.Core.Text.{
  trimmed, escaped_for_diagnostic, equals_ascii_ignore_case, is_hex_object_id, is_hex_digits,
  to_lower_ascii, to_lower_ascii_char, normalized_object_id,
}
use bomwerk.Core.Text.Case.{equals_ascii_ignore_case_iff, normalized_object_id_lem}
use bomwerk.Core.Text.Trim.{IsBlank, IsCore, IsTight, trimmed_unique, trimmed_lem}
use bomwerk.Core.Text.Diagnostic.{
  unescaped, unescaped-escaped_for_diagnostic, IsPrintable, escaped_for_diagnostic-IsPrintable,
}
use bomwerk.Core.Percent.{percent_encode, percent_decode, percent_encode_purl_namespace}
use bomwerk.Core.Percent.RoundTrip.{percent_decode-percent_encode}
use bomwerk.Core.Percent.Namespace.{
  slashes_kept, percent_encode_purl_namespace-slashes_kept,
  percent_decode-percent_encode_purl_namespace,
}
use bomwerk.Core.Base64.{base64_encode, base64url_decode}
use bomwerk.Core.Base64.Letters.{unpadded_url}
use bomwerk.Core.Base64.RoundTrip.{base64url_decode-base64_encode}
use bomwerk.Core.Base64.Canonical.{base64url_decode_canonical}
use bomwerk.Tests.Data.{bytes_of}

equals_ascii_ignore_case_iff_run :
    (equals_ascii_ignore_case (codes "Zlib") (codes "zLIB") ≡ true)
    ↔ (to_lower_ascii (codes "Zlib") ≡ to_lower_ascii (codes "zLIB"))
equals_ascii_ignore_case_iff_run = equals_ascii_ignore_case_iff (codes "Zlib") (codes "zLIB")

abbrev object_id : Bytes
object_id = codes "0123456789ABCDEF0123456789abcdef01234567"

abbrev object_id_lower : Bytes
object_id_lower = codes "0123456789abcdef0123456789abcdef01234567"

object_id_fits : is_hex_object_id object_id ≡ true
unfolding is_hex_object_id is_hex_digits
object_id_fits = refl

object_id_same : equals_ascii_ignore_case object_id object_id_lower ≡ true
unfolding equals_ascii_ignore_case to_lower_ascii_char
object_id_same = refl

normalized_object_id_lem_run :
    (normalized_object_id object_id ≡ normalized_object_id object_id_lower)
    × (normalized_object_id (normalized_object_id object_id) ≡ normalized_object_id object_id)
normalized_object_id_lem_run =
    normalized_object_id_lem object_id object_id_lower object_id_fits object_id_same

a_b-IsTight : IsTight (codes "a b")
a_b-IsTight = record {
  head = b'a';
  tail = codes " b";
  begins = refl;
  head_solid = refl;
  front = codes "a ";
  last = b'b';
  ends = refl;
  last_solid = refl;
}

trimmed_unique_run : trimmed (codes " \t" ++ (codes "a b" ++ codes "\n")) ≡ codes "a b"
trimmed_unique_run =
    trimmed_unique (codes " \t") (codes "a b") (codes "\n") (refl, (refl, tt)) (refl, tt)
      (inr a_b-IsTight)

trimmed_lem_run :
    (front back : Bytes) × (codes " a b\n" ≡ front ++ (trimmed (codes " a b\n") ++ back))
    × IsBlank front
    × IsBlank back
    × IsCore (trimmed (codes " a b\n"))
trimmed_lem_run = trimmed_lem (codes " a b\n")

unescaped-escaped_for_diagnostic_run :
    unescaped (escaped_for_diagnostic (codes "a\\\n\t")) ≡ some (codes "a\\\n\t")
unescaped-escaped_for_diagnostic_run =
    unescaped-escaped_for_diagnostic (codes "a\\\n\t") (bytes_of (codes "a\\\n\t") refl)

escaped_for_diagnostic-IsPrintable_run :
    All IsPrintable (escaped_for_diagnostic (27 ∷ codes "[31m"))
escaped_for_diagnostic-IsPrintable_run = escaped_for_diagnostic-IsPrintable (27 ∷ codes "[31m")

percent_decode-percent_encode_example :
    percent_decode (percent_encode (codes "a b%/c")) ≡ codes "a b%/c"
percent_decode-percent_encode_example =
    percent_decode-percent_encode (codes "a b%/c") (bytes_of (codes "a b%/c") refl)

percent_encode_purl_namespace-slashes_kept_run :
    percent_encode_purl_namespace (codes "@scope/a b") ≡ slashes_kept (codes "@scope/a b")
percent_encode_purl_namespace-slashes_kept_run =
    percent_encode_purl_namespace-slashes_kept (codes "@scope/a b")

percent_decode-percent_encode_purl_namespace_run :
    percent_decode (percent_encode_purl_namespace (codes "@scope/a b")) ≡ codes "@scope/a b"
percent_decode-percent_encode_purl_namespace_run =
    percent_decode-percent_encode_purl_namespace (codes "@scope/a b")
      (bytes_of (codes "@scope/a b") refl)

base64url_decode-base64_encode_example :
    base64url_decode (unpadded_url (base64_encode (codes "any carnal?")))
    ≡ some (codes "any carnal?")
base64url_decode-base64_encode_example =
    base64url_decode-base64_encode (codes "any carnal?") (bytes_of (codes "any carnal?") refl)

base64url_decode_canonical_run :
    All IsByte (codes "any ")
    × (unpadded_url (base64_encode (codes "any ")) ≡ unpadded_url (base64_encode (codes "any ")))
base64url_decode_canonical_run =
    base64url_decode_canonical (unpadded_url (base64_encode (codes "any "))) (codes "any ")
      (base64url_decode-base64_encode (codes "any ") (bytes_of (codes "any ") refl))
