-- ===== src/Ipfs.antt =====
-- internal/ipfs: content identifiers, and the fetching of content.
pub mod Base32
pub mod Cid
pub mod Client
