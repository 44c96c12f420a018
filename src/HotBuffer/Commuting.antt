-- ===== src/HotBuffer/Commuting.antt =====
-- internal/hotbuffer: statements of the custody clock and of the uploader that may change places.
pub mod Columns
pub mod Marked
pub mod Aside
pub mod Signed
pub mod Inserted
pub mod Older
pub mod Views
