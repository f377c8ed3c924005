-- ===== src/Safenet.antt =====
-- internal/safenet: the requests of a SentinelOracle, read from the chain.
pub mod Types
pub mod Rules
pub mod Votes
pub mod Reads
pub mod Disputes
pub mod Arbitrations
pub mod Proposals
pub mod Requests
