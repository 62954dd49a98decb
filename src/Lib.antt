-- ===== src/Lib.antt =====
-- bomwerk writes a software bill of materials: producers find the components of a source tree, each
-- with the evidence for it, components with one identity are merged, and the result is written and
-- matched against vulnerability feeds. This library models the core that those parts share.
--
-- Text is a list of bytes (Bytes, natural numbers below 256 where a theorem says so); std::optional
-- and a position of npos are Option; std::map is a list of entries in the order of their keys; a
-- file system path is the text that prints it; std::sort by a strict total order is insertion
-- sort, which has the same result.
--
--   * Core/Text: src/core/text.cpp, letter case, trimming, escapes for diagnostics, object ids.
--   * Core/Percent: src/core/percent.cpp. The loop over a namespace runs on fuel, one more than the
--     length of the text, since each round but the last takes a byte at least.
--   * Core/Base64: src/core/base64.cpp, the standard encoding and the strict URL-safe decoding, in
--     groups of three bytes and four symbols.
--   * Core/Warnings: src/core/warning.hpp, src/core/warning_code.hpp, src/core/warning_code.cpp and
--     src/core/result.hpp. The two overloads of is_warning_suppressed are is_code_suppressed and
--     is_warning_suppressed; those of Result::warn are warn_about, with warn for its defaults,
--     warn_external and warn_again.
--   * Core/Purl: src/core/purl.cpp. parse is Purl::parse: it uses Core/Text for letter case and
--     escapes, and Core/Warnings for what it returns.
--   * Core/Model: src/core/model.cpp and src/core/model.hpp. component_identity asks Core/Purl for
--     the canonical form; merge_all is collect_components, which searches and inserts or merges as
--     add_component does, and values_of.
--   * Core/Coverage: src/core/match_coverage.cpp, which reads purls with the accessors of Core/Purl.
--   * Core/GitUrl: src/core/git_url.cpp. The loop over `./` and `../` runs on fuel, the length of the
--     relative address and one, since a round that goes on takes two bytes at least. The purl of a
--     source is put together with Core/Percent; Core/Purl/Encoded has the lemmas on such purls.
--   * Core/Sha256: src/core/sha256.cpp. update tops up a partly filled block (topped_up), compresses
--     the whole blocks and buffers the rest (absorb_blocks); the loop over the blocks runs on fuel,
--     the number of bytes, and the loop over the zero bytes of the padding on 64 rounds.
--   * Core/Sha1 and Core/Uuid: src/core/uuid.cpp. The loops of sha1 have fuel as those of Core/Sha256,
--     whose padding they are compared with.
--   * Core/BuildVariables: src/core/build_variables.cpp. The recursion of expand_with_budget goes by the
--     depths that are left, nine with the first; its loop runs on fuel, the length of the text, since
--     a round takes a byte at least. A table is a list with each key once, and merging goes through
--     it in the order of the list.
--   * Core/GitConfig: src/core/git_config.cpp. raw_line is one round of the loop of parse_git_config,
--     which runs on fuel, the length of the text; Core/GitConfig/Print has files of plain sections,
--     without the escapes that git has for quotes and backslashes. Whether the file exists and what is read of it are arguments of read_git_config.
--   * Parsers/Conan: src/parsers/cpp/conan_ref.cpp, on Core/Text and Core/Percent.
--   * Vuln/Cpe: src/vuln/cpe.cpp, which fills the CPE of components by their coverage class.
--   * Vuln/Delta: src/vuln/delta.cpp. The two loops are one recursion on what is left of the lists.
--   * Vuln/Endpoints: src/vuln/endpoints.cpp. The storage of registered endpoints is an argument; the
--     loop over the segments of a path runs on fuel, its length and one.
--   * Vuln/Finding: src/vuln/finding.cpp. merge_outcomes sorts as Vuln/Delta's lists are sorted, by
--     insertion, where std::sort may order equal hits in another way; the type of an advisory is a
--     parameter.
--   * Binscan/Bounds and Binscan/Cursor: src/binscan/bounds.hpp and src/binscan/byte_cursor.hpp. A
--     64-bit shift keeps its wrap-around.
--   * Binscan/Archive: src/binscan/archive_read.cpp. Archive has the fields and names of members,
--     Archive/Index the symbol index,
--     Archive/Reader the walk: read_member is one round of the loop of ArchiveReader::read,
--     walk_members the loop, finished what follows it. The walk runs on fuel, the size of the file
--     and one, since a round that goes on takes at least the 60 bytes of a header. The bytes of the
--     file are an argument (BoundedFileRead of src/core/file_io.hpp). It reads fields with
--     Core/Text and the index with Binscan/Cursor.
--   * Observe/ShimNames: src/observe/shim_names.cpp and src/observe/shim_names.hpp, the environment
--     variables of the shimmed tools.
--   * Observe/TraceLine: src/observe/trace_line.cpp, which stands alone. The loop over a text runs on
--     fuel, the length of the text, since a round takes a byte at least; the process id is an
--     integer of its own type.
--   * Observe/TraceWriter: src/observe/trace_writer.cpp. append_trace_line is one call that nobody
--     interferes with; Step is what one of many processes does at a time, with what the system call of
--     the step gives as its Event. Alone compares the two.
--   * Observe/TraceRead: src/observe/trace_read.cpp. The JSON library is the parameter JsonLibrary, with
--     the questions that parse_trace_record asks of it; trace_lines is the loop over std::getline.
--   * Observe/TraceCheck: src/observe/trace_check.cpp. check_lines is the loop, finish_check what
--     follows it; std::map is a list in the order of its keys. Whether the temporary file opens, takes
--     the lines and can be renamed is the argument RewriteOutcome.
--   * Heuristics/VendorRoot: src/heuristics/vendor_root.cpp. A path is the list of its components; the
--     loop over the labels of a name runs on fuel, its length and one, since a label takes a byte.
--   * Core/JsonUtils: src/core/json_utils.cpp. exceeds_from is the loop; TraceDepth runs it on the
--     lines of Observe/TraceLine, which are read under that guard.
--   * Prelude: the shared names, bytes and text, sorting and std::unique; Tests: concrete runs.
--
-- Not modelled are the parts that are glue around a third-party library or the operating system:
-- the command line, the JSON and TOML readers and writers, HTTP, SQLite, the start of the traced tools
-- and the directory walk. The other parsers of manifests and lockfiles, the ELF reader and the scanners of
-- text formats have logic of their own and are left out as well.
mod Prelude
pub mod Core
pub mod Vuln
pub mod Parsers
pub mod Heuristics
pub mod Observe
pub mod Binscan
mod Tests
