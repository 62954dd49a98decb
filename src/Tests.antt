-- ===== src/Tests.antt =====
-- Runs of the theorems on concrete inputs.
mod Data
mod Texts
mod Codes
mod Purls
mod Models
mod Cpes
mod Deltas
mod Binaries
mod Sources
mod Traces
mod Layouts
mod Shims
mod TraceChecks
mod Digests
mod Feeds
mod Configs
