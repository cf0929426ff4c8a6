-- ===== src/Lib.antt =====
-- tinyllama.c, an inference engine for GGUF language models in C: what its core computes, in
-- functions over numbers, lists and records, and the theorems about them.
--
-- The parts. `src/core.c` maps a GGUF file, reads its metadata through a bounds-checked cursor, and
-- builds the vocabulary with two hash tables. `src/tokenizer.c` turns text into tokens by look-ups in
-- them. `src/http.c` and `src/server.c` read requests, run them on a pool of workers and stream the
-- answer. `src/graph.c` holds the compute graph that the architectures build, and plans where the results
-- of its nodes and the KV caches lie; `src/pthreads.c` is the thread pool of the kernels, `src/asctx.c`
-- with `src/mm.c` the allocator, and `src/sampler.c` picks the next token from the logits.
--
-- The files.
--   Vocab/Key, Vocab/Table: keys, `hash_bytes`, `next_pow2` and the tokenizer table, with the probe
--     loop that put and get share as one function. Table/Walk, Valid, Write and Load prove.
--   Vocab/Lookup: the record `Vocab` and its look-ups.
--   Tokenizer/Lexicon: what the tokenizer asks of a vocabulary, as a record, and the loaded
--     vocabulary as an instance of it.
--   Tokenizer/Chunk: `bpe_encode_chunk`. Tokenizer/Bpe: `match_special_token` and `tokenize_bpe`.
--   Gguf/Types: value types, `gguf_types`, `tensor_bytes`. Gguf/Cursor: the cursor as a state monad.
--   Tokenizer/Spm: `tokenize_spm`, over the comparisons of floats. Tokenizer/Chat: the chat templates,
--     with Chat/Layout, Prompts and Chatml for what they write and Chat/Room for the room they take.
--   Gguf/Model: metadata entries and reads by key. Gguf/Tensors: tensor entries and `model_load`.
--   Server/Pool: the worker pool as a step relation; Ring proves that its ring is a queue, Traces what
--     holds in every interleaving. Server/Utf8: `utf8_complete_prefix`.
--   Http: `http_body`, the JSON escapes and `json_get_string`.
--   Loading: `vocab_load` and what it calls, in core.c. Loading/Specials and Loading/Bytes have the
--     special ids and the tokens of bytes; Loading/Loaded, Pieces, Names, ByteIds and Named are the proofs
--     on the token table, on the pieces of bytes and on their ids, and Exact those on look-ups that end.
--   Graph: nodes, `node_add` and the backends of layers. Graph/Builders: the builders, of which
--     Graph/Backward proves. Graph/Plan: `arena_plan`; Cover counts how often a byte is taken, Place is
--     one placement, Slots the sweep, Release the last consumers, and Safe the whole plan.
--     Graph/Cache: the layout of the KV caches.
--   Alloc: the memory context `src/asctx.c`. Index is the class of a size, Mask the fields of a chunk's
--     mask, Homes leads from a chunk to its context, Regions counts how often a byte is taken, Known is
--     the invariant, Give the ways to allocate; Apart, Free, Resize (with Moved, Copied and Resized) and
--     Create are `alloc_set_alloc`, `alloc_set_free`, `alloc_set_realloc`, and `alloc_set_memory_context_create` with `alloc_set_reset`.
--   Memory: the wrappers of it, `src/mm.c`; Sizes is about `scalloc` and the size that it asks for.
--   Sampler: `src/sampler.c`. Heap counts what the bounded heap holds, Sort what sorting keeps, Chosen is
--     about the candidates and the draw, Token about `sample_token`, Greedy about `sample_greedy`, and Rounds about the rounds of a sift.
--   Threads: the thread pool as a step relation; Once proves what a call runs.
--   Prelude: numbers, tests, lists and bits. Tests: the theorems at concrete inputs, and runs.
--
-- Numbers. A machine integer is a natural number below its bound, and wraps where the C type does:
-- u64 additions are taken modulo 2^64. An i32 is its bit pattern, so it is negative from 2^31 on and
-- -1 is 2^32 - 1. Bytes are numbers; texts and keys are lists of them.
--
-- Loops and fuel. A loop that C leaves unbounded takes fuel and returns an option or stops. The probe
-- has the capacity as fuel, which is enough in a well-formed table; `next_pow2` has 65, more than the
-- 64 doublings a u64 can make; the merge loop has the number of symbols, since each round removes one;
-- `tokenize_loop` has one more than the length of the text, since each round consumes a byte. The scan
-- for the leftmost bit has the 4 bytes of a word; a sift in the heap has a round for each entry, since
-- each goes to a parent or to a child; the loop over capacities of the sampler has one more than the
-- number of logits, since each round that is not the last has a larger capacity.
--
-- Not modelled: tensor arithmetic, the kernels, the graphs of the model architectures, sockets,
-- logging, the chat and bench programs, and the vendored rax and linenoise. Pointers into the mapped
-- file are the bytes they cover. Allocation does not fail; the addresses that `malloc` gives the
-- allocator are arguments, and what they may not share with is a hypothesis. `realloc` keeps the bytes
-- of the old block, and a pointer into another context has no result. A run in which a counter of the
-- thread pool would pass the largest int ends there. The floats of the sampler
-- are a record of operations, for its theorems hold of any, and so is `qsort` a function.
pub mod Prelude
pub mod Vocab
pub mod Tokenizer
pub mod Gguf
pub mod Loading
pub mod Graph
pub mod Alloc
pub mod Memory
pub mod Threads
pub mod Sampler
pub mod Server
pub mod Http
pub mod Tests
