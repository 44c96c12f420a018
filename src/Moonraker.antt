-- ===== src/Moonraker.antt =====
-- internal/moonraker: the printer's state and the client that feeds it.
pub mod State
pub mod Client
pub mod Objects
pub mod Subscribed
pub mod Handshake
pub mod Deaf
pub mod Reading
pub mod Delivery
