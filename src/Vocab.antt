-- ===== src/Vocab.antt =====
-- The vocabulary of `src/core.c`.
pub mod Key
pub mod Table
pub mod Lookup
