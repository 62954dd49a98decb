-- ===== src/Tests/Cpes.antt =====
-- Runs on synthesized identifiers: src/vuln/cpe.cpp.
use bomwerk.Prelude.{◌≡◌, ◌↔◌, refl, some, Bytes, codes}
use bomwerk.Core.Text.{to_lower_ascii}
use bomwerk.Core.Percent.{percent_encode}
use bomwerk.Vuln.Cpe.{
  validated_segment, unmapped_only, populate_component, percent_encode_query_value,
}
use bomwerk.Vuln.Cpe.Safe.{IsCpeSegment, validated_segment_iff}
use bomwerk.Vuln.Cpe.Populate.{expected_cpe, other_fields, populate_component_lem}
use bomwerk.Vuln.Cpe.Query.{percent_encode_query_value-percent_encode}
use bomwerk.Tests.Data.{bytes_of, zlib}

validated_segment_iff_run :
    (validated_segment (codes "ZLib") ≡ some (codes "zlib"))
    ↔ ((codes "zlib" ≡ to_lower_ascii (codes "ZLib")) × IsCpeSegment (codes "zlib"))
validated_segment_iff_run = validated_segment_iff (codes "ZLib") (codes "zlib")

populate_component_lem_run :
    ((populate_component unmapped_only zlib).cpe ≡ expected_cpe unmapped_only zlib)
    × (other_fields (populate_component unmapped_only zlib) ≡ other_fields zlib)
populate_component_lem_run = populate_component_lem unmapped_only zlib

percent_encode_query_value-percent_encode_run :
    percent_encode_query_value (codes "cpe:2.3:a:*:zlib")
    ≡ percent_encode (codes "cpe:2.3:a:*:zlib")
percent_encode_query_value-percent_encode_run =
    percent_encode_query_value-percent_encode (codes "cpe:2.3:a:*:zlib")
      (bytes_of (codes "cpe:2.3:a:*:zlib") refl)

abbrev zlib_cpe : Bytes
zlib_cpe = codes "cpe:2.3:a:*:zlib:1.3.1:*:*:*:*:*:*:*"
