-- ===== src/Utils.antt =====
-- include/utils and src/utils: what stands beside the program's parts.
pub mod Tool
pub mod RandomString
pub mod Serialize
