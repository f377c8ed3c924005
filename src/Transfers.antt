-- ===== src/Transfers.antt =====
-- internal/erc20 and internal/native: the transfers of tokens and of the native currency, from logs.
pub mod Erc20
pub mod Native
pub mod Filtered
pub mod Shown
