-- ===== src/Tests.antt =====
-- The theorems at concrete inputs, over the platform of Platform/Memory.antt.
mod Rows
mod Stores
mod Graphs
mod Clients
mod Created
mod Columns
mod Meshes
mod Strings
