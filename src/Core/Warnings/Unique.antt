-- ===== src/Core/Warnings/Unique.antt =====
-- The ids of src/core/warning_code.cpp name their codes.
use Prim.Native.String.{String}
use text.Mathlib.Text.{◌==◌ as str_eq}
use bomwerk.Prelude.{◌≡◌, refl, ap, sym, ◌∙◌, Option, none, some, List, [], ◌∷◌, if◌then◌else◌}
use mathlib.Core.Option.{some-injective}
use bomwerk.Core.Warnings.Code.{
  WarningCode, json_nesting_depth_exceeded, invalid_json, invalid_toml, entry_limit_reached,
  file_limit_reached, file_size_limit_exceeded, unreadable_file, purl_validation_failed,
  entries_skipped_unresolved, malformed_entry_skipped, lockfile_format_unsupported,
  self_identity_unresolvable, unresolved_variable_or_interpolation, dependency_missing_source,
  unpinned_or_unresolved_ref, manifest_no_lockfile_alongside, manifest_unsupported_lockfile,
  directory_walk_error, build_output_directory_holds_manifest, purl_malformed, name_list_unreadable,
  name_list_empty, config_not_valid_toml, config_file_unreadable, config_file_too_large,
  config_key_wrong_type, config_array_entry_invalid, config_unknown_key, config_unknown_table,
  config_top_level_key_not_table, config_value_invalid_format, config_deprecated_key_removed,
  config_secret_rejected, config_section_incomplete, config_file_not_written,
  git_config_structure_invalid, submodule_missing_path, submodule_unsafe_path,
  submodule_not_initialized, submodule_no_url, observe_trace_not_written,
  observe_trace_malformed_lines, observe_trace_exceeds_limit, observe_trace_rewrite_failed,
  observe_shim_binary_missing, observe_shim_directory_unwritable, observe_shim_creation_failed,
  observe_no_toolchain_found, observe_no_compiler_invocations, observe_evidence_outside_root,
  observe_response_files_unexpanded, observe_unresolved_link_argument,
  observe_auto_detected_trace_unusable, observe_no_rooted_components, binary_unreadable,
  binary_too_large, binary_malformed_header, binary_evidence_limited, fingerprint_index_unreadable,
  fingerprint_index_schema_unsupported, fingerprint_index_entry_skipped,
  fingerprint_version_disagreement, fingerprint_match_without_component,
  fingerprint_file_budget_reached, sbom_document_invalid, sbom_wrong_format,
  sbom_component_entry_skipped, report_config_field_invalid, vuln_cache_open_failed,
  vuln_http_endpoint_not_allowlisted, vuln_http_request_failed, vuln_http_unexpected_status,
  vuln_response_malformed, vuln_coverage_incomplete, license_fallback_incomplete,
  externally_defined,
}
use bomwerk.Core.Warnings.Info.{warning_code_info}

all_codes : List WarningCode
all_codes =
    json_nesting_depth_exceeded ∷ invalid_json ∷ invalid_toml ∷ entry_limit_reached
    ∷ file_limit_reached ∷ file_size_limit_exceeded ∷ unreadable_file ∷ purl_validation_failed
    ∷ entries_skipped_unresolved ∷ malformed_entry_skipped ∷ lockfile_format_unsupported
    ∷ self_identity_unresolvable ∷ unresolved_variable_or_interpolation ∷ dependency_missing_source
    ∷ unpinned_or_unresolved_ref ∷ manifest_no_lockfile_alongside ∷ manifest_unsupported_lockfile
    ∷ directory_walk_error ∷ build_output_directory_holds_manifest ∷ purl_malformed
    ∷ name_list_unreadable ∷ name_list_empty ∷ config_not_valid_toml ∷ config_file_unreadable
    ∷ config_file_too_large ∷ config_key_wrong_type ∷ config_array_entry_invalid
    ∷ config_unknown_key ∷ config_unknown_table ∷ config_top_level_key_not_table
    ∷ config_value_invalid_format ∷ config_deprecated_key_removed ∷ config_secret_rejected
    ∷ config_section_incomplete ∷ config_file_not_written ∷ git_config_structure_invalid
    ∷ submodule_missing_path ∷ submodule_unsafe_path ∷ submodule_not_initialized ∷ submodule_no_url
    ∷ observe_trace_not_written ∷ observe_trace_malformed_lines ∷ observe_trace_exceeds_limit
    ∷ observe_trace_rewrite_failed ∷ observe_shim_binary_missing ∷ observe_shim_directory_unwritable
    ∷ observe_shim_creation_failed ∷ observe_no_toolchain_found ∷ observe_no_compiler_invocations
    ∷ observe_evidence_outside_root ∷ observe_response_files_unexpanded
    ∷ observe_unresolved_link_argument ∷ observe_auto_detected_trace_unusable
    ∷ observe_no_rooted_components ∷ binary_unreadable ∷ binary_too_large ∷ binary_malformed_header
    ∷ binary_evidence_limited ∷ fingerprint_index_unreadable ∷ fingerprint_index_schema_unsupported
    ∷ fingerprint_index_entry_skipped ∷ fingerprint_version_disagreement
    ∷ fingerprint_match_without_component ∷ fingerprint_file_budget_reached ∷ sbom_document_invalid
    ∷ sbom_wrong_format ∷ sbom_component_entry_skipped ∷ report_config_field_invalid
    ∷ vuln_cache_open_failed ∷ vuln_http_endpoint_not_allowlisted ∷ vuln_http_request_failed
    ∷ vuln_http_unexpected_status ∷ vuln_response_malformed ∷ vuln_coverage_incomplete
    ∷ license_fallback_incomplete ∷ externally_defined ∷ []

find_code : String → List WarningCode → Option WarningCode
unfolding warning_code_info
find_code id [] = none
find_code id (c ∷ cs) =
    let later = find_code id cs in if str_eq (warning_code_info c).id id then some c else later

-- The code with a given id, the first if there were two.
pub code_of_id : String → Option WarningCode
unfolding find_code all_codes
code_of_id id = find_code id all_codes

code_of_id_lem : (c : WarningCode) → code_of_id (warning_code_info c).id ≡ some c
unfolding code_of_id
code_of_id_lem json_nesting_depth_exceeded = refl
code_of_id_lem _ = refl

-- No two codes share an id, so the id printed with a warning names its cause.
pub warning_code_info-injective :
    (c d : WarningCode) → (warning_code_info c).id ≡ (warning_code_info d).id → c ≡ d
warning_code_info-injective c d same =
    some-injective c d (sym (code_of_id_lem c) ∙ ap code_of_id same ∙ code_of_id_lem d)
