-- ===== src/Alloc/Resize.antt =====
-- Resizing a chunk of a context, in `src/asctx.c`.
use mathlib.Core.Option
use mathlib.Core.Path.{subst}
use tinyllama_c.Prelude.{
  covers, covers-split, ℕ, zero, suc, ◌+◌, ◌-◌, ◌≤◌, ◌<◌, ◌^◌, ◌≡◌, ◌≢◌, refl, ◌∙◌, ap, sym, inl,
  inr, true, List, ◌∷◌, some, leb, get_elem?, arith, Bool-cases,
}
use tinyllama_c.Alloc.{
  Block, AllocSet, alloc_block_size, alloc_chunk_size, alloc_set_realloc, moved_block, unlink,
  chunk_is_external, chunk_get_value, large_bytes, write_word, chunk_block, copy_bytes,
}
use tinyllama_c.Alloc.Homes.{
  Homes, write-same, write-owner, owner-Homes, mask-Homes, external-chunk_block, external-written,
  home,
}
use tinyllama_c.Alloc.Regions.{
  Given, given_cover, given-le, classes_cover, blocks_at, blocks_cover, without, get_elem?-without,
}
use tinyllama_c.Alloc.Known.{
  Entry, of_class, large, Invariant, write_self, write-EveryClass, write-Entry, not_head,
  other_base,
}
use tinyllama_c.Alloc.Apart.{alloc_set_alloc-Served, large_bytes-room}
use tinyllama_c.Alloc.Free.{value_written, in_context}
use tinyllama_c.Alloc.Moved.{moved-at, moved-new, moved-cover, moved-EveryBlock}
use tinyllama_c.Alloc.Copied.{copy-inside, copy-outside}
use tinyllama_c.Alloc.Resized.{Resized, resize_bytes, others, back, keep_chunk, other_chunk}

module _ {s : AllocSet} {es : List Given} (inv : Invariant s es) (j : ℕ) (e : Given)
    (at_j : get_elem? es j ≡ some e) (addr size : ℕ) where
  -- An external chunk, with its block.
  module _ (len : alloc_chunk_size ≤ e.len) (base : alloc_block_size ≤ e.chunk)
      (linked : 1 ≤ blocks_at (e.chunk - alloc_block_size) inv.tail)
      (flag : chunk_is_external (s.mask e.chunk) ≡ true) (bytes : ℕ)
      (wide : alloc_block_size + alloc_chunk_size ≤ bytes) (low : addr + bytes < 2 ^ 64)
      (fresh : (x : ℕ)
        → covers addr bytes x
            + (given_cover x (without j es)
                + classes_cover 0 x s.free_list
                + blocks_cover x (unlink (e.chunk - alloc_block_size) s.blocks))
          ≤ 1) where
    abbrev old : ℕ
    old = e.chunk - alloc_block_size

    abbrev n : ℕ
    n = addr + alloc_block_size

    abbrev moved_entry : Given
    moved_entry = record { chunk = n; len = bytes - alloc_block_size; external = true }

    abbrev new_mask : ℕ → ℕ
    new_mask = write_word n (s.mask e.chunk) s.mask

    abbrev moved_tail : List Block
    moved_tail = moved_block old addr (addr + bytes) inv.tail

    abbrev moved : AllocSet
    moved = record s {
      blocks = moved_block old addr (addr + bytes) s.blocks;
      mask = new_mask;
      owner = write_word addr (s.owner old) s.owner;
      bytes = copy_bytes addr old bytes s.bytes;
    }

    n-free : (given_cover n (without j es) ≡ 0) × (classes_cover 0 n s.free_list ≡ 0)
    n-free = let inside : covers addr bytes n ≡ 1 = ground arith in omega (arith, inside, fresh n)

    moved_split : moved_block old addr (addr + bytes) s.blocks ≡ inv.head ∷ moved_tail
    unfolding moved_block
    moved_split =
        ap (moved_block old addr (addr + bytes)) inv.split ∙ rw (not_head inv old linked) refl

    kept_Entry :
        (d : Given)
        → ((x : ℕ) → covers e.chunk e.len x + covers d.chunk d.len x ≤ 1)
        → Entry s.mask inv.tail d
        → Entry s.mask moved_tail d
    kept_Entry d apart (of_class f known ext dlen dflag value) =
        of_class f known ext dlen dflag value
    kept_Entry d apart (large ext dlen dflag dbase dlinked) =
        let ne = other_base e d len base dlen dbase (apart e.chunk) in
        large ext dlen dflag dbase (
          omega (
            arith,
            moved-at old addr (addr + bytes) (d.chunk - alloc_block_size) inv.tail
                (λ h. ne (sym h)),
            dlinked,
          ))

    moved_entries :
        (i : ℕ) (d : Given)
        → get_elem? (moved_entry ∷ without j es) i ≡ some d
        → Entry new_mask moved_tail d
    moved_entries zero d h = subst (Entry new_mask moved_tail) (Option.some-injective _ _ h) (
        large refl (omega arith)
          (ap chunk_is_external (write_self s.mask n (s.mask e.chunk)) ∙ flag) (omega arith)
          at_addr)
      where
        at_addr : 1 ≤ blocks_at (n - alloc_block_size) moved_tail
        at_addr =
            let same : n - alloc_block_size ≡ addr = omega arith in
            rw same (moved-new old addr (addr + bytes) inv.tail linked)
    moved_entries (suc i) d h =
        let (k, at_k, apart) = get_elem?-without es j i e d at_j h in
        write-Entry s.mask n (s.mask e.chunk) moved_tail d
          (omega (arith, given-le n (without j es) i d h, n-free.0))
          (kept_Entry d (λ x. omega (arith, apart x, inv.once x)) (inv.entries k d at_k))

    written : s.mask e.chunk ≢ 0
    written = external-written (s.mask e.chunk) flag

    old_block : chunk_block e.chunk (s.mask e.chunk) ≡ old
    old_block = external-chunk_block e.chunk (s.mask e.chunk) flag

    old_owned : s.owner old ≡ s.set
    old_owned = ap s.owner (sym old_block) ∙ home s.mask s.owner s.set e.chunk inv.homes written

    new_block : chunk_block n (s.mask e.chunk) ≡ addr
    new_block =
        let here : n - alloc_block_size ≡ addr = omega arith in
        external-chunk_block n (s.mask e.chunk) flag ∙ here

    moved-Homes : Homes new_mask (write_word addr (s.owner old) s.owner) s.set
    moved-Homes = rw old_owned (
        mask-Homes s.mask (write_word addr s.set s.owner) n (s.mask e.chunk) s.set
          (ap (write_word addr s.set s.owner) new_block ∙ write-same addr s.set s.owner)
          (owner-Homes s.mask s.owner addr s.set inv.homes))

    moved-Invariant : Invariant moved (moved_entry ∷ without j es)
    moved-Invariant = record {
      head = inv.head;
      tail = moved_tail;
      split = moved_split;
      shape = inv.shape;
      blocks = moved-EveryBlock old addr (addr + bytes) low s.blocks inv.blocks;
      free = write-EveryClass s.mask n (s.mask e.chunk) 0 s.free_list n-free.1 inv.free;
      entries = moved_entries;
      once = λ x.
          let cut = covers-split addr alloc_block_size bytes x (omega arith) in
          omega (arith, cut, moved-cover old addr (addr + bytes) x s.blocks, fresh x);
      homes = moved-Homes;
      near = record {
        owned =
            ap (λ w. write_word addr w s.owner inv.head.addr) old_owned
            ∙ write-owner addr s.set inv.head.addr s.owner inv.near.owned;
        low = inv.near.low;
        high = inv.near.high;
      };
      next = inv.next;
    }

    resize_large : bytes ≡ large_bytes size → size + 56 ≤ bytes → Resized addr s es j e size
    unfolding alloc_set_realloc moved_block
    resize_large eq room = record {
      result = (addr + alloc_block_size + alloc_chunk_size, moved);
      entry = moved_entry;
      returns =
          rw (back inv j e at_j addr size, in_context inv e written, flag, old_block, sym eq) refl;
      pointer = refl;
      room = omega (arith, room);
      keeps = moved-Invariant;
      copied = λ i h k.
          let to : addr + alloc_block_size + alloc_chunk_size + i
              ≡ addr + (alloc_block_size + alloc_chunk_size + i) =
            omega arith in
          let from : old + (alloc_block_size + alloc_chunk_size + i)
              ≡ e.chunk + alloc_chunk_size + i =
            omega (arith, base) in
          ap moved.bytes to
          ∙ copy-inside addr old bytes (alloc_block_size + alloc_chunk_size + i) s.bytes
              (omega (arith, h, room))
          ∙ ap s.bytes from;
      others_same = λ x h. copy-outside addr old bytes x s.bytes (omega (arith, fresh x, h));
    }

-- Where what `malloc` or `realloc` gives shares no byte with what the context keeps, resizing a chunk
-- that was given out and not freed to a size below 2^63 finds its block, which names the context, and
-- returns a chunk with room for it, in place of the old one, that holds the bytes of the old one as far
-- as both go. The bytes of the other chunks do not change, and the context keeps its invariant.
pub alloc_set_realloc-Resized :
    (addr : ℕ) (s : AllocSet) (es : List Given) (j : ℕ) (e : Given) (size : ℕ)
    → Invariant s es
    → get_elem? es j ≡ some e
    → size < 2 ^ 63
    → addr + resize_bytes s e size < 2 ^ 64
    → ((x : ℕ) → covers addr (resize_bytes s e size) x + others s es j e x ≤ 1)
    → Resized addr s es j e size
unfolding resize_bytes others
alloc_set_realloc-Resized addr s es j e size inv at_j small low fresh =
    by_entry (inv.entries j e at_j)
  where
    by_entry : Entry s.mask inv.tail e → Resized addr s es j e size
    by_entry (of_class f known ext len flag value) =
        elim (Bool-cases (leb size (chunk_get_value (s.mask e.chunk)))) [
          | inl enough ↦
              keep_chunk inv j e at_j addr size (value_written f (s.mask e.chunk) value) flag enough
                (ground (arith, enough, value, len))
          | inr more ↦
              other_chunk inv j e at_j addr size (value_written f (s.mask e.chunk) value) flag more
                (omega (arith, len, value))
                (alloc_set_alloc-Served addr s size es inv small (rw flag at low)
                  (rw flag at fresh))
        ]
    by_entry (large ext len flag base linked) =
        let room = large_bytes-room size small in
        resize_large inv j e at_j addr size len base linked flag (large_bytes size)
          (omega (arith, room)) (rw flag at low) (rw flag at fresh) refl room
