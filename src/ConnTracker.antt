-- ===== src/ConnTracker.antt =====
-- conntracker/conntracker.go: the connections to the S3 endpoint, their pacing rate and statistics.
pub mod TcpInfo
pub mod Tracker
pub mod Pacing
pub mod Lifecycle
pub mod InStep
pub mod Order
pub mod Ledger
pub mod Monotone
pub mod Totals
mod Examples
