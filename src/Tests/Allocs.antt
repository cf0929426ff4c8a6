-- ===== src/Tests/Allocs.antt =====
-- A memory context that gave out a chunk of 128 bytes and a large one.
use mathlib.Core.Option
use mathlib.Core.Path.{subst}
use tinyllama_c.Prelude.{
  ◌-◌, ◌⊎◌, inl, covers, ℕ, zero, suc, ◌+◌, ◌*◌, none, ◌≤◌, ◌<◌, ◌^◌, ◌≡◌, refl, true, false, [],
  ◌∷◌, some, get_elem?, replicate, arith,
}
use tinyllama_c.Alloc.{
  chunk_block, chunk_get_offset, large_bytes, Block, AllocSet, alloc_set_memory_context_create,
  alloc_set_alloc, alloc_set_free_index, chunk_mask, chunk_get_value, chunk_is_external,
  external_mask, maxalign, write_word, leftmost_32_pos, leftmost_from, alloc_set_alloc_large,
  alloc_set_alloc_chunk_from_block, alloc_of_class, alloc_of_list, alloc_of_block, block_bytes,
  unlink,
}
use tinyllama_c.Alloc.Index.{Class, alloc_set_free_index-Class}
use tinyllama_c.Alloc.Homes.{mask-Homes, no_Homes}
use tinyllama_c.Alloc.Regions.{Given, total}
use tinyllama_c.Alloc.Known.{Entry, of_class, large, Invariant}
use tinyllama_c.Alloc.Apart.{asked, Served, alloc_set_alloc-Served}
use tinyllama_c.Alloc.Resized.{Resized, resize_bytes, others}
use tinyllama_c.Alloc.Resize.{alloc_set_realloc-Resized}
use tinyllama_c.Alloc.Create.{alloc_set_memory_context_create-Invariant}
use tinyllama_c.Memory.{scalloc, scalloc_total}
use tinyllama_c.Memory.Sizes.{scalloc-Served}

abbrev new_context : AllocSet
new_context = alloc_set_memory_context_create 4096 1024

new_context-Invariant : Invariant new_context []
unfolding maxalign
new_context-Invariant =
    alloc_set_memory_context_create-Invariant 4096 1024 (omega arith) (omega arith) (omega arith)

abbrev keeper_block : Block
keeper_block = record { addr = 4200; freeptr = 4384; endptr = 5224 }

abbrev large_block : Block
large_block = record { addr = 1048576; freeptr = 1058632; endptr = 1058632 }

abbrev keeper_owner : ℕ → ℕ
keeper_owner = write_word 4200 4096 (λ a. 0)

abbrev two_chunks : AllocSet
two_chunks = record {
  set = 4096;
  blocks = keeper_block ∷ large_block ∷ [];
  free_list = replicate 11 [];
  next_block_size = 1024;
  mask = write_word 1048616 external_mask (write_word 4240 (chunk_mask 40 128) (λ c. 0));
  owner = write_word 1048576 4096 keeper_owner;
  bytes = λ a. 0;
}

abbrev small_chunk : Given
small_chunk = record { chunk = 4240; len = 144; external = false }

abbrev big_chunk : Given
big_chunk = record { chunk = 1048616; len = 10016; external = true }

abbrev one_chunk : AllocSet
one_chunk = record {
  set = 4096;
  blocks = keeper_block ∷ [];
  free_list = replicate 11 [];
  next_block_size = 1024;
  mask = write_word 4240 (chunk_mask 40 128) (λ c. 0);
  owner = keeper_owner;
  bytes = λ a. 0;
}

get_small : alloc_set_alloc 0 new_context 100 ≡ some (4256, one_chunk)
unfolding alloc_set_alloc Option.bind alloc_set_free_index leftmost_32_pos leftmost_from
    alloc_of_class alloc_of_list alloc_of_block alloc_set_memory_context_create maxalign
    alloc_set_alloc_chunk_from_block
get_small = refl

get_big : alloc_set_alloc 1048576 one_chunk 10000 ≡ some (1048632, two_chunks)
unfolding alloc_set_alloc alloc_set_alloc_large maxalign
get_big = refl

big_Entry : Entry two_chunks.mask (large_block ∷ []) big_chunk
unfolding chunk_is_external external_mask write_word
big_Entry = large refl (omega arith) refl (omega arith) (omega arith)

small_Entry : Entry two_chunks.mask (large_block ∷ []) small_chunk
unfolding chunk_is_external chunk_get_value chunk_mask write_word
small_Entry = of_class 4 (omega arith) refl refl refl refl

big_home : two_chunks.owner (chunk_block 1048616 external_mask) ≡ 4096
unfolding chunk_block chunk_is_external external_mask write_word
big_home = refl

small_home : two_chunks.owner (chunk_block 4240 (chunk_mask 40 128)) ≡ 4096
unfolding chunk_block chunk_is_external chunk_get_offset chunk_mask write_word
small_home = refl

keeper_owned : two_chunks.owner 4200 ≡ 4096
unfolding write_word
keeper_owned = refl

two_chunks-Invariant : Invariant two_chunks (big_chunk ∷ small_chunk ∷ [])
two_chunks-Invariant = record {
  head = keeper_block;
  tail = large_block ∷ [];
  split = refl;
  shape = refl;
  blocks = ((omega arith, omega arith), ((omega arith, omega arith), tt));
  free = (tt, (tt, (tt, (tt, (tt, (tt, (tt, (tt, (tt, (tt, (tt, tt)))))))))));
  entries = two_entries;
  once = λ x. ground arith;
  homes =
      mask-Homes (write_word 4240 (chunk_mask 40 128) (λ c. 0)) two_chunks.owner 1048616
        external_mask 4096 big_home
        (mask-Homes (λ c. 0) two_chunks.owner 4240 (chunk_mask 40 128) 4096 small_home
          (no_Homes two_chunks.owner 4096));
  near = record { owned = keeper_owned; low = omega arith; high = omega arith };
  next = omega arith;
}
  where
    two_entries :
        (j : ℕ) (e : Given)
        → get_elem? (big_chunk ∷ small_chunk ∷ []) j ≡ some e
        → Entry two_chunks.mask (large_block ∷ []) e
    two_entries zero e h =
        subst (Entry two_chunks.mask (large_block ∷ [])) (Option.some-injective _ _ h) big_Entry
    two_entries (suc zero) e h =
        subst (Entry two_chunks.mask (large_block ∷ [])) (Option.some-injective _ _ h) small_Entry
    two_entries (suc (suc j)) e h = absurd (cc)

fresh_for_2000 :
    (x : ℕ)
    → covers 2097152 (asked two_chunks 2000) x + total two_chunks (big_chunk ∷ small_chunk ∷ []) x
      ≤ 1
unfolding asked block_bytes alloc_set_free_index leftmost_32_pos leftmost_from
fresh_for_2000 x = ground arith

low_for_2000 : 2097152 + asked two_chunks 2000 < 2 ^ 64
unfolding asked block_bytes alloc_set_free_index leftmost_32_pos leftmost_from
low_for_2000 = omega arith

alloc_set_alloc-Served_example :
    Served (big_chunk ∷ small_chunk ∷ []) 2000 (alloc_set_alloc 2097152 two_chunks 2000)
alloc_set_alloc-Served_example =
    alloc_set_alloc-Served 2097152 two_chunks 2000 (big_chunk ∷ small_chunk ∷ [])
      two_chunks-Invariant (omega arith) low_for_2000 fresh_for_2000

-- In place.
fresh_for_20000 :
    (x : ℕ)
    → covers 1048576 (resize_bytes two_chunks big_chunk 20000) x
        + others two_chunks (big_chunk ∷ small_chunk ∷ []) 0 big_chunk x
      ≤ 1
unfolding resize_bytes others chunk_is_external write_word external_mask maxalign unlink
fresh_for_20000 x = ground arith

low_for_20000 : 1048576 + resize_bytes two_chunks big_chunk 20000 < 2 ^ 64
unfolding resize_bytes chunk_is_external write_word external_mask maxalign
low_for_20000 = omega arith

alloc_set_realloc-Resized_example :
    Resized 1048576 two_chunks (big_chunk ∷ small_chunk ∷ []) 0 big_chunk 20000
alloc_set_realloc-Resized_example =
    alloc_set_realloc-Resized 1048576 two_chunks (big_chunk ∷ small_chunk ∷ []) 0 big_chunk 20000
      two_chunks-Invariant refl (omega arith) low_for_20000 fresh_for_20000

alloc_set_free_index-Class_example : (f : ℕ) × Class 100 f
alloc_set_free_index-Class_example = alloc_set_free_index-Class 100 (omega arith)

-- With a block size of 8 the free end of the keeper wraps around, and a chunk is cut past its end.
past_the_end :
    (alloc_set_alloc 0 (alloc_set_memory_context_create 4096 8) 1000)
    ≡ some (
      4256,
      record {
        set = 4096;
        blocks = record { addr = 4200; freeptr = 5280; endptr = 4208 } ∷ [];
        free_list = replicate 11 [];
        next_block_size = 8;
        mask = write_word 4240 (chunk_mask 40 1024) (λ c. 0);
        owner = keeper_owner;
        bytes = λ a. 0;
      },
    )
unfolding alloc_set_alloc Option.bind alloc_set_free_index leftmost_32_pos leftmost_from
    alloc_of_class alloc_of_list alloc_of_block alloc_set_memory_context_create maxalign
    alloc_set_alloc_chunk_from_block
past_the_end = refl

fresh_for_array :
    (x : ℕ)
    → covers 2097152 (asked two_chunks (scalloc_total 40 50)) x
        + total two_chunks (big_chunk ∷ small_chunk ∷ []) x
      ≤ 1
unfolding asked block_bytes alloc_set_free_index leftmost_32_pos leftmost_from
fresh_for_array x = ground arith

low_for_array : 2097152 + asked two_chunks (scalloc_total 40 50) < 2 ^ 64
unfolding asked block_bytes alloc_set_free_index leftmost_32_pos leftmost_from
low_for_array = omega arith

scalloc-Served_example :
    ((2 ^ 64 ≤ 40 * 50) × (scalloc 4096 2097152 (some two_chunks) 40 50 ≡ none))
    ⊎ ((40 * 50 < 2 ^ 64)
        × Served
            (big_chunk ∷ small_chunk ∷ [])
            (40 * 50)
            (scalloc 4096 2097152 (some two_chunks) 40 50))
scalloc-Served_example =
    scalloc-Served 4096 2097152 two_chunks (big_chunk ∷ small_chunk ∷ []) 40 50 two_chunks-Invariant
      (inl (omega arith)) (omega arith) (omega arith) low_for_array fresh_for_array

-- Near 2^64 the size of a block wraps around: one large chunk of a block of 48 bytes.
wrapped_size : large_bytes (2 ^ 64 - 8) ≡ 48
unfolding maxalign
wrapped_size = refl

-- A chunk that starts 2^30 bytes into its block leads to itself.
offset_of_a_far_chunk : chunk_get_offset (chunk_mask (2 ^ 30) 8) ≡ 0
unfolding chunk_get_offset chunk_mask
offset_of_a_far_chunk = refl
