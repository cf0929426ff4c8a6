-- ===== src/Tests.antt =====
-- The theorems at concrete inputs, and runs of the definitions.
mod Sample
mod Tables
mod Tokens
mod Chats
mod Cursors
mod Models
mod Servers
mod Graphs
mod Pools
mod Samples
mod Caches
mod Allocs
mod Loads
