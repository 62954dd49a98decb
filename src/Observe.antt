-- ===== src/Observe.antt =====
-- src/observe: what the tools of a build were called with.
pub mod ShimNames
pub mod TraceLine
pub mod TraceWriter
pub mod TraceRead
pub mod TraceCheck
