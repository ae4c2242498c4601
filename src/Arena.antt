-- ===== src/Arena.antt =====
-- programs/prisoners-arena: the on-chain program. The children hold its errors and state, one module
-- for each file of instructions, and the theorems.
pub mod Error
pub mod State
pub mod Ledger
pub mod World
pub mod Lamports
pub mod Admin
pub mod Player
pub mod Lifecycle
pub mod Running
pub mod Finalize
pub mod Closing
pub mod Conservation
pub mod Settlement
pub mod Session
pub mod Store
pub mod Award
pub mod Phases
pub mod Sound
pub mod Sync
pub mod Winners
pub mod Payout
pub mod Pool
pub mod Finishing
pub mod Solvency
pub mod Commitment
pub mod Refusals
pub mod Progress
pub mod Opening
pub mod Settings
