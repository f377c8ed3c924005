-- ===== src/Sourcify.antt =====
-- internal/sourcify, lookup.go, and internal/signatures: the functions of a verified contract.
pub mod Lookup
pub mod Signatures
pub mod Sorted
pub mod Covered
pub mod Ascending
