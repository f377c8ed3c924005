-- ===== src/Ethrpc.antt =====
-- internal/ethrpc: the client's data types, and its searches over blocks and logs.
pub mod Types
pub mod Hex
pub mod Search
pub mod Logs
