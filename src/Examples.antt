-- ===== src/Examples.antt =====
-- The theorems at concrete inputs, and runs of the definitions.
pub mod Values
mod Encodings
mod Interleavings
mod Roots
mod Profiles
pub mod Tables
pub mod Sessions
pub mod Flushes
mod Daemons
mod Evidence
pub mod Devices
pub mod Boots
mod Chains
mod Connections
mod Systems
mod Quotes
