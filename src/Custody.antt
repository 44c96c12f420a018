-- ===== src/Custody.antt =====
-- internal/custody/packetizer.go: the custody clock. State is the packetizer, the tables of the hot
-- buffer beside it; deltas and ticks are its events.
pub mod State
pub mod Delta
pub mod Tick
pub mod Run
pub mod Threads
pub mod Chain
pub mod Ledger
pub mod Written
pub mod GapFree
pub mod Places
pub mod Recorded
pub mod Unquoted
pub mod Quoted
pub mod Tamper
pub mod Silence
pub mod Cadence
pub mod Bound
pub mod Named
