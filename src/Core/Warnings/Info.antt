-- ===== src/Core/Warnings/Info.antt =====
-- src/core/warning_code.cpp: the permanent id and the title of each code.
use Prim.Native.String.{String}
use bomwerk.Core.Warnings.Code.{
  WarningCode, json_nesting_depth_exceeded, invalid_json, invalid_toml, entry_limit_reached,
  file_limit_reached, file_size_limit_exceeded, unreadable_file, purl_validation_failed,
  entries_skipped_unresolved, malformed_entry_skipped, lockfile_format_unsupported,
  self_identity_unresolvable, unresolved_variable_or_interpolation, dependency_missing_source,
  unpinned_or_unresolved_ref, manifest_no_lockfile_alongside, manifest_unsupported_lockfile,
  directory_walk_error, build_output_directory_holds_manifest, purl_malformed, name_list_unreadable,
  name_list_empty, config_not_valid_toml, config_file_unreadable, config_file_too_large,
  config_key_wrong_type, config_array_entry_invalid, config_unknown_key, config_unknown_table,
  config_top_level_key_not_table, config_value_invalid_format, config_deprecated_key_removed,
  config_secret_rejected, config_section_incomplete, config_file_not_written,
  git_config_structure_invalid, submodule_missing_path, submodule_unsafe_path,
  submodule_not_initialized, submodule_no_url, observe_trace_not_written,
  observe_trace_malformed_lines, observe_trace_exceeds_limit, observe_trace_rewrite_failed,
  observe_shim_binary_missing, observe_shim_directory_unwritable, observe_shim_creation_failed,
  observe_no_toolchain_found, observe_no_compiler_invocations, observe_evidence_outside_root,
  observe_response_files_unexpanded, observe_unresolved_link_argument,
  observe_auto_detected_trace_unusable, observe_no_rooted_components, binary_unreadable,
  binary_too_large, binary_malformed_header, binary_evidence_limited, fingerprint_index_unreadable,
  fingerprint_index_schema_unsupported, fingerprint_index_entry_skipped,
  fingerprint_version_disagreement, fingerprint_match_without_component,
  fingerprint_file_budget_reached, sbom_document_invalid, sbom_wrong_format,
  sbom_component_entry_skipped, report_config_field_invalid, vuln_cache_open_failed,
  vuln_http_endpoint_not_allowlisted, vuln_http_request_failed, vuln_http_unexpected_status,
  vuln_response_malformed, vuln_coverage_incomplete, license_fallback_incomplete,
  externally_defined,
}

-- WarningCodeInfo
pub record WarningCodeInfo : Type 0 where
  pub id : String
  pub title : String

unfoldable pub warning_code_info : WarningCode → WarningCodeInfo
warning_code_info json_nesting_depth_exceeded = record {
  id = "BW-CORE-001";
  title = "nesting exceeds the JSON depth limit";
}
warning_code_info invalid_json = record { id = "BW-CORE-002"; title = "file is not valid JSON" }
warning_code_info invalid_toml = record { id = "BW-CORE-003"; title = "file is not valid TOML" }
warning_code_info entry_limit_reached = record {
  id = "BW-CORE-006";
  title = "package/dependency count budget reached";
}
warning_code_info file_limit_reached = record {
  id = "BW-CORE-007";
  title = "manifest/lockfile file count budget reached";
}
warning_code_info file_size_limit_exceeded = record {
  id = "BW-CORE-008";
  title = "file exceeds its byte budget";
}
warning_code_info unreadable_file = record { id = "BW-CORE-009"; title = "file could not be read" }
warning_code_info purl_validation_failed = record {
  id = "BW-CORE-010";
  title = "an assembled component purl failed validation";
}
warning_code_info entries_skipped_unresolved = record {
  id = "BW-CORE-011";
  title = "entries without a resolvable name/version were skipped";
}
warning_code_info malformed_entry_skipped = record {
  id = "BW-CORE-012";
  title = "an entry had an unreadable shape and was skipped";
}
warning_code_info lockfile_format_unsupported = record {
  id = "BW-CORE-013";
  title = "a recognized lockfile's format/version is not supported";
}
warning_code_info self_identity_unresolvable = record {
  id = "BW-CORE-014";
  title = "the manifest's own component lacks enough identity to emit";
}
warning_code_info unresolved_variable_or_interpolation = record {
  id = "BW-CORE-015";
  title = "a name or version depends on an unresolved variable";
}
warning_code_info dependency_missing_source = record {
  id = "BW-CORE-016";
  title = "a dependency declaration has no name, repository or URL";
}
warning_code_info unpinned_or_unresolved_ref = record {
  id = "BW-CORE-017";
  title = "a dependency is not pinned to a resolved reference";
}
warning_code_info manifest_no_lockfile_alongside = record {
  id = "BW-CORE-004";
  title = "manifest declares ranges only, no lockfile alongside it";
}
warning_code_info manifest_unsupported_lockfile = record {
  id = "BW-CORE-005";
  title = "a real lockfile was found with no parser for it yet";
}
warning_code_info directory_walk_error = record {
  id = "BW-CORE-018";
  title = "the directory walk stopped early";
}
warning_code_info build_output_directory_holds_manifest = record {
  id = "BW-CORE-019";
  title = "a skipped build-output directory holds a recognized manifest";
}
warning_code_info purl_malformed = record {
  id = "BW-CORE-020";
  title = "a supplied purl is malformed";
}
warning_code_info name_list_unreadable = record {
  id = "BW-CORE-021";
  title = "a --manifest-list/--exclude-list file is unreadable";
}
warning_code_info name_list_empty = record {
  id = "BW-CORE-022";
  title = "a --manifest-list/--exclude-list file is empty";
}
warning_code_info config_not_valid_toml = record {
  id = "BW-CONFIG-001";
  title = "config file is not valid TOML";
}
warning_code_info config_file_unreadable = record {
  id = "BW-CONFIG-002";
  title = "config file could not be read";
}
warning_code_info config_file_too_large = record {
  id = "BW-CONFIG-003";
  title = "config file exceeds its size cap";
}
warning_code_info config_key_wrong_type = record {
  id = "BW-CONFIG-004";
  title = "a config key has the wrong value type";
}
warning_code_info config_array_entry_invalid = record {
  id = "BW-CONFIG-005";
  title = "a config array entry is invalid or unsafe";
}
warning_code_info config_unknown_key = record {
  id = "BW-CONFIG-006";
  title = "config names an unknown key";
}
warning_code_info config_unknown_table = record {
  id = "BW-CONFIG-007";
  title = "config names an unknown table";
}
warning_code_info config_top_level_key_not_table = record {
  id = "BW-CONFIG-008";
  title = "a top-level config key is not a table";
}
warning_code_info config_value_invalid_format = record {
  id = "BW-CONFIG-009";
  title = "a config value does not match its expected format";
}
warning_code_info config_deprecated_key_removed = record {
  id = "BW-CONFIG-010";
  title = "config uses a key that has been removed";
}
warning_code_info config_secret_rejected = record {
  id = "BW-CONFIG-011";
  title = "config carries a secret directly instead of by reference";
}
warning_code_info config_section_incomplete = record {
  id = "BW-CONFIG-012";
  title = "a config section is missing required keys and stays unconfigured";
}
warning_code_info config_file_not_written = record {
  id = "BW-CONFIG-013";
  title = "a config/metadata file could not be written";
}
warning_code_info git_config_structure_invalid = record {
  id = "BW-GIT-001";
  title = "a .git config file has an invalid structure";
}
warning_code_info submodule_missing_path = record {
  id = "BW-GIT-002";
  title = "a submodule entry has no path";
}
warning_code_info submodule_unsafe_path = record {
  id = "BW-GIT-003";
  title = "a submodule entry has an unsafe path";
}
warning_code_info submodule_not_initialized = record {
  id = "BW-GIT-004";
  title = "a submodule is not initialized";
}
warning_code_info submodule_no_url = record {
  id = "BW-GIT-005";
  title = "a submodule's url is missing or cannot be resolved";
}
warning_code_info observe_trace_not_written = record {
  id = "BW-OBSERVE-001";
  title = "no build trace file was written";
}
warning_code_info observe_trace_malformed_lines = record {
  id = "BW-OBSERVE-002";
  title = "trace lines were unreadable and were dropped";
}
warning_code_info observe_trace_exceeds_limit = record {
  id = "BW-OBSERVE-003";
  title = "the trace exceeds its line limit";
}
warning_code_info observe_trace_rewrite_failed = record {
  id = "BW-OBSERVE-004";
  title = "the trace could not be rewritten in canonical order";
}
warning_code_info observe_shim_binary_missing = record {
  id = "BW-OBSERVE-005";
  title = "the shim binary was not found or not executable";
}
warning_code_info observe_shim_directory_unwritable = record {
  id = "BW-OBSERVE-006";
  title = "the shim directory could not be created";
}
warning_code_info observe_shim_creation_failed = record {
  id = "BW-OBSERVE-007";
  title = "a tool shim could not be created or recorded";
}
warning_code_info observe_no_toolchain_found = record {
  id = "BW-OBSERVE-008";
  title = "no compiler, linker or archiver was found on PATH";
}
warning_code_info observe_no_compiler_invocations = record {
  id = "BW-OBSERVE-009";
  title = "the trace holds no compiler invocations naming a source file";
}
warning_code_info observe_evidence_outside_root = record {
  id = "BW-OBSERVE-010";
  title = "observed compile/link evidence lies outside the scan root";
}
warning_code_info observe_response_files_unexpanded = record {
  id = "BW-OBSERVE-011";
  title = "a compile/link argument was a response file bomwerk does not open";
}
warning_code_info observe_unresolved_link_argument = record {
  id = "BW-OBSERVE-012";
  title = "a link argument did not resolve to a file bomwerk observed";
}
warning_code_info observe_auto_detected_trace_unusable = record {
  id = "BW-OBSERVE-013";
  title = "an auto-detected build trace could not be applied";
}
warning_code_info observe_no_rooted_components = record {
  id = "BW-OBSERVE-014";
  title = "a build trace judged zero components as used";
}
warning_code_info binary_unreadable = record {
  id = "BW-BINSCAN-001";
  title = "a binary artifact could not be read";
}
warning_code_info binary_too_large = record {
  id = "BW-BINSCAN-002";
  title = "a binary artifact exceeds its size cap";
}
warning_code_info binary_malformed_header = record {
  id = "BW-BINSCAN-003";
  title = "a binary artifact has a malformed ELF/ar header";
}
warning_code_info binary_evidence_limited = record {
  id = "BW-BINSCAN-004";
  title = "binary-level dependency evidence is partial for this run";
}
warning_code_info fingerprint_index_unreadable = record {
  id = "BW-FINGERPRINT-001";
  title = "the fingerprint corpus index could not be read";
}
warning_code_info fingerprint_index_schema_unsupported = record {
  id = "BW-FINGERPRINT-002";
  title = "the fingerprint corpus index uses an unsupported schema version";
}
warning_code_info fingerprint_index_entry_skipped = record {
  id = "BW-FINGERPRINT-003";
  title = "fingerprint corpus index entries were skipped";
}
warning_code_info fingerprint_version_disagreement = record {
  id = "BW-FINGERPRINT-004";
  title = "the fingerprint corpus and a declared version disagree";
}
warning_code_info fingerprint_match_without_component = record {
  id = "BW-FINGERPRINT-005";
  title = "a fingerprint match had no component to enrich";
}
warning_code_info fingerprint_file_budget_reached = record {
  id = "BW-FINGERPRINT-006";
  title = "the fingerprint matcher stopped at its file budget";
}
warning_code_info sbom_document_invalid = record {
  id = "BW-SBOM-001";
  title = "an SBOM document could not be read";
}
warning_code_info sbom_wrong_format = record {
  id = "BW-SBOM-002";
  title = "an SBOM document is not in the expected/recognized format";
}
warning_code_info sbom_component_entry_skipped = record {
  id = "BW-SBOM-003";
  title = "an SBOM component entry was skipped";
}
warning_code_info report_config_field_invalid = record {
  id = "BW-OUTPUT-001";
  title = "a --report-config field is invalid";
}
warning_code_info vuln_cache_open_failed = record {
  id = "BW-VULN-001";
  title = "the vulnerability cache could not be opened";
}
warning_code_info vuln_http_endpoint_not_allowlisted = record {
  id = "BW-VULN-002";
  title = "a request targeted a non-allowlisted endpoint and was refused";
}
warning_code_info vuln_http_request_failed = record {
  id = "BW-VULN-003";
  title = "an HTTP request failed";
}
warning_code_info vuln_http_unexpected_status = record {
  id = "BW-VULN-004";
  title = "an HTTP request returned an unexpected status";
}
warning_code_info vuln_response_malformed = record {
  id = "BW-VULN-005";
  title = "a feed response was malformed";
}
warning_code_info vuln_coverage_incomplete = record {
  id = "BW-VULN-006";
  title = "vulnerability match coverage is incomplete for this run";
}
warning_code_info license_fallback_incomplete = record {
  id = "BW-VULN-008";
  title = "license-fallback enrichment is incomplete for this run";
}
warning_code_info externally_defined = record {
  id = "BW-EXT-000";
  title = "code defined outside this library";
}
