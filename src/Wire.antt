-- ===== src/Wire.antt =====
-- include/wire: the messages between clients, and who handles them.
pub mod Message
pub mod Client
