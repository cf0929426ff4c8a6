-- ===== src/Gguf.antt =====
-- Loading of GGUF model files, `src/core.c`.
pub mod Types
pub mod Cursor
pub mod Model
pub mod Tensors
