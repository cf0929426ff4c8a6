-- ===== src/Alloc/Resized.antt =====
-- What resizing a chunk promises, in `src/asctx.c`, and where the chunk is one of a class.
use mathlib.Core.Option
use tinyllama_c.Prelude.{
  covers, ℕ, zero, suc, ◌+◌, ◌-◌, ◌≤◌, ◌<◌, ◌≡◌, ◌≢◌, refl, ◌∙◌, ap, true, false, List, ◌∷◌, some,
  leb, if◌then◌else◌, get_elem?, arith,
}
use tinyllama_c.Alloc.{
  AllocSet, Allocated, alloc_block_size, alloc_chunk_size, alloc_set_alloc, alloc_set_realloc,
  unlink, chunk_is_external, chunk_get_value, large_bytes, copy_bytes,
}
use tinyllama_c.Alloc.Regions.{
  Given, given_cover, classes_cover, total, blocks_cover, without, given_cover-without,
  get_elem?-without,
}
use tinyllama_c.Alloc.Known.{Entry, Invariant}
use tinyllama_c.Alloc.Apart.{asked, Served, alloc_set_alloc-bytes}
use tinyllama_c.Alloc.Free.{in_context, alloc_set_free-Freed}
use tinyllama_c.Alloc.Copied.{copy-inside, copy-outside, with_bytes}

-- What resizing entry `j` to `size` bytes leaves.
pub record Resized (addr : ℕ) (s : AllocSet) (es : List Given) (j : ℕ) (e : Given) (size : ℕ)
    : Type 0 where
  pub result : Allocated
  pub entry : Given
  pub returns : alloc_set_realloc addr s (e.chunk + alloc_chunk_size) size ≡ some result
  pub pointer : result.0 ≡ entry.chunk + alloc_chunk_size
  pub room : size + alloc_chunk_size ≤ entry.len
  pub keeps : Invariant result.1 (entry ∷ without j es)
  pub copied :
      (i : ℕ)
      → i < size
      → i + alloc_chunk_size < e.len
      → result.1.bytes (result.0 + i) ≡ s.bytes (e.chunk + alloc_chunk_size + i)
  pub others_same : (x : ℕ) → given_cover x (without j es) ≡ 1 → result.1.bytes x ≡ s.bytes x

-- The bytes it asks for, and what these may not share with.
unfoldable pub resize_bytes : AllocSet → Given → ℕ → ℕ
resize_bytes s e size =
    if chunk_is_external (s.mask e.chunk) then large_bytes size else asked s size

unfoldable pub others : AllocSet → List Given → ℕ → Given → ℕ → ℕ
others s es j e x =
    if chunk_is_external (s.mask e.chunk)
    then given_cover x (without j es)
      + classes_cover 0 x s.free_list
      + blocks_cover x (unlink (e.chunk - alloc_block_size) s.blocks)
    else total s es x

module _ {s : AllocSet} {es : List Given} (inv : Invariant s es) (j : ℕ) (e : Given)
    (at_j : get_elem? es j ≡ some e) (addr size : ℕ) where
  pub back : e.chunk + alloc_chunk_size - alloc_chunk_size ≡ e.chunk
  back = omega arith

  -- The chunk that is large enough.
  to_front : Invariant s (e ∷ without j es)
  to_front = record {
    head = inv.head;
    tail = inv.tail;
    split = inv.split;
    shape = inv.shape;
    blocks = inv.blocks;
    free = inv.free;
    entries = moved_entries;
    once = λ x. omega (arith, given_cover-without x es j e at_j, inv.once x);
    homes = inv.homes;
    near = inv.near;
    next = inv.next;
  }
    where
      moved_entries :
          (i : ℕ) (d : Given) → get_elem? (e ∷ without j es) i ≡ some d → Entry s.mask inv.tail d
      moved_entries zero d h = inv.entries j d (at_j ∙ h)
      moved_entries (suc i) d h =
          let (k, at_k, apart) = get_elem?-without es j i e d at_j h in inv.entries k d at_k

  pub keep_chunk :
      s.mask e.chunk ≢ 0
      → chunk_is_external (s.mask e.chunk) ≡ false
      → leb size (chunk_get_value (s.mask e.chunk)) ≡ true
      → size + alloc_chunk_size ≤ e.len
      → Resized addr s es j e size
  unfolding alloc_set_realloc
  keep_chunk written flag enough room = record {
    result = (e.chunk + alloc_chunk_size, s);
    entry = e;
    returns = rw (back, in_context inv e written, flag, enough) refl;
    pointer = refl;
    room = room;
    keeps = to_front;
    copied = λ i h k. refl;
    others_same = λ x h. refl;
  }

  -- Another chunk, and the old one is free.
  pub other_chunk :
      s.mask e.chunk ≢ 0
      → chunk_is_external (s.mask e.chunk) ≡ false
      → leb size (chunk_get_value (s.mask e.chunk)) ≡ false
      → e.len ≡ chunk_get_value (s.mask e.chunk) + alloc_chunk_size
      → Served es size (alloc_set_alloc addr s size)
      → Resized addr s es j e size
  unfolding alloc_set_realloc Option.bind
  other_chunk written flag small len served =
      let value = chunk_get_value (s.mask e.chunk) in
      let from = e.chunk + alloc_chunk_size in
      let before = alloc_set_alloc-bytes addr s size served.result served.returns in
      let copy = copy_bytes served.result.0 from value served.result.1.bytes in
      let freed =
        alloc_set_free-Freed (record served.result.1 { bytes = copy }) (served.entry ∷ es) (suc j) e
          (with_bytes copy served.keeps) at_j in
      record {
        result = (served.result.0, freed.rest);
        entry = served.entry;
        returns =
            rw (back, in_context inv e written, flag, small, served.returns, freed.returns) refl;
        pointer = served.pointer;
        room = served.room;
        keeps = freed.keeps;
        copied = λ i h k.
            ap (λ b. b (served.result.0 + i)) freed.same
            ∙ copy-inside served.result.0 from value i served.result.1.bytes (omega (arith, k, len))
            ∙ ap (λ b. b (from + i)) before;
        others_same = λ x h.
            let taken = given_cover-without x es j e at_j in
            let apart : covers served.entry.chunk served.entry.len x ≡ 0 =
              omega (arith, served.keeps.once x, taken, h) in
            let clear : covers served.result.0 value x ≡ 0 =
              ground (arith, served.pointer, served.room, small, apart) in
            ap (λ b. b x) freed.same
            ∙ copy-outside served.result.0 from value x served.result.1.bytes clear
            ∙ ap (λ b. b x) before;
      }
