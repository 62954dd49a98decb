-- ===== src/Core/Warnings/Code.antt =====
-- src/core/warning_code.hpp: one code for each cause of a warning that the library can raise.
pub data WarningCode : Type 0 where
  json_nesting_depth_exceeded invalid_json invalid_toml entry_limit_reached : WarningCode
  file_limit_reached file_size_limit_exceeded unreadable_file purl_validation_failed : WarningCode
  entries_skipped_unresolved malformed_entry_skipped lockfile_format_unsupported : WarningCode
  self_identity_unresolvable unresolved_variable_or_interpolation : WarningCode
  dependency_missing_source unpinned_or_unresolved_ref : WarningCode
  manifest_no_lockfile_alongside manifest_unsupported_lockfile directory_walk_error : WarningCode
  build_output_directory_holds_manifest purl_malformed name_list_unreadable : WarningCode
  name_list_empty config_not_valid_toml config_file_unreadable config_file_too_large : WarningCode
  config_key_wrong_type config_array_entry_invalid config_unknown_key : WarningCode
  config_unknown_table config_top_level_key_not_table config_value_invalid_format : WarningCode
  config_deprecated_key_removed config_secret_rejected config_section_incomplete : WarningCode
  config_file_not_written git_config_structure_invalid submodule_missing_path : WarningCode
  submodule_unsafe_path submodule_not_initialized submodule_no_url : WarningCode
  observe_trace_not_written observe_trace_malformed_lines : WarningCode
  observe_trace_exceeds_limit observe_trace_rewrite_failed : WarningCode
  observe_shim_binary_missing observe_shim_directory_unwritable : WarningCode
  observe_shim_creation_failed observe_no_toolchain_found : WarningCode
  observe_no_compiler_invocations observe_evidence_outside_root : WarningCode
  observe_response_files_unexpanded observe_unresolved_link_argument : WarningCode
  observe_auto_detected_trace_unusable observe_no_rooted_components : WarningCode
  binary_unreadable binary_too_large binary_malformed_header binary_evidence_limited : WarningCode
  fingerprint_index_unreadable fingerprint_index_schema_unsupported : WarningCode
  fingerprint_index_entry_skipped fingerprint_version_disagreement : WarningCode
  fingerprint_match_without_component fingerprint_file_budget_reached : WarningCode
  sbom_document_invalid sbom_wrong_format sbom_component_entry_skipped : WarningCode
  report_config_field_invalid vuln_cache_open_failed : WarningCode
  vuln_http_endpoint_not_allowlisted vuln_http_request_failed : WarningCode
  vuln_http_unexpected_status vuln_response_malformed vuln_coverage_incomplete : WarningCode
  license_fallback_incomplete externally_defined : WarningCode
