-- ===== src/HotBuffer.antt =====
-- internal/hotbuffer: the tables of the trust buffer and the statements that write and read them. SQLite
-- is not modelled but for what the schema and the statements ask of it: AUTOINCREMENT keys, UNIQUE,
-- foreign keys and transactions. Whether the database carries a statement out at all (an open context,
-- no I/O error) is the argument `up` of each operation.
pub mod Tables
pub mod Open
pub mod Writes
pub mod Segments
pub mod Invariant
pub mod Statements
pub mod Outcomes
pub mod Order
pub mod Runs
pub mod Pending
pub mod Readback
pub mod Drain
pub mod Commuting
