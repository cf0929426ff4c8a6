-- ===== src/Tokenizer.antt =====
-- The tokenizer, `src/tokenizer.c`.
pub mod Lexicon
pub mod Chunk
pub mod Bpe
pub mod Spm
pub mod Chat
