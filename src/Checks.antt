-- ===== src/Checks.antt =====
-- internal/checks: the classification of requests.
pub mod Calls
pub mod MultiSend
pub mod Components
pub mod Safe
pub mod Rules
pub mod Table
pub mod Classify
pub mod Accounts
pub mod Report
