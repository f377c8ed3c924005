-- ===== src/Solabi.antt =====
-- solabi.go: the Solidity ABI, its encoder and its decoder.
pub mod Encode
pub mod Decode
pub mod RoundTrip
pub mod Abi
