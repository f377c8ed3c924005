-- ===== src/Tests.antt =====
-- The theorems, applied to concrete inputs.
pub mod Codec
pub mod Chain
pub mod Oracle
pub mod Proposals
pub mod Verdicts
pub mod Settings
pub mod Retries
pub mod Batches
pub mod Executions
pub mod Reports
pub mod Names
pub mod Contracts
pub mod Headers
