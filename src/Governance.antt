-- ===== src/Governance.antt =====
-- The Governance service, src/governance/index.js, in parts.
pub mod State
pub mod Ledger
pub mod Handoff
pub mod Controls
pub mod Transition
pub mod Results
pub mod Sound
pub mod Live
mod Entered
mod Recorded
pub mod Reach
pub mod Terminal
pub mod Ending
mod Paths
pub mod Changed
pub mod Freshness
mod Examples
