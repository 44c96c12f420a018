-- ===== src/Uploader.antt =====
-- internal/uploader: segment roots and the flush loop.
pub mod Root
pub mod Flush
