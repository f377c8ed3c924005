-- ===== src/Executions.antt =====
-- internal/executions: the Safe transactions that a Safe executed, from its logs, and from the
-- calldata, the trace and the Safe Transaction Service.
pub mod Types
pub mod Frames
pub mod Decode
pub mod Gather
pub mod Decoder
pub mod Finder
pub mod Matched
pub mod Calldata
pub mod Authentic
pub mod Coherent
pub mod Uncached
pub mod Found
