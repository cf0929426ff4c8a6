-- ===== src/Alloc/Give.antt =====
-- What each way of allocating keeps, in `src/asctx.c`.
use mathlib.Core.Option
use mathlib.Core.Path.{subst}
use tinyllama_c.Prelude.{
  covers, covers-first, covers-split, ℕ, zero, suc, ◌+◌, ◌-◌, ◌≤◌, ◌<◌, ◌^◌, ◌≡◌, refl, ◌∙◌, ap,
  sym, true, false, List, [], ◌∷◌, some, get_or, get_elem?, set, arith, length-set,
}
use tinyllama_c.Alloc.{
  Block, AllocSet, alloc_block_size, alloc_chunk_size, class_size, alloc_set_alloc_chunk_from_block,
  insert_second, chunk_is_external, chunk_get_value, chunk_mask, external_mask, write_word,
}
use tinyllama_c.Alloc.Index.{pow_mono}
use tinyllama_c.Alloc.Mask.{chunk_mask-value, external_mask-IsExternal}
use tinyllama_c.Alloc.Homes.{
  write-same, write-owner, owner-Homes, mask-Homes, own-chunk_block, chunk_block-chunk_mask,
}
use tinyllama_c.Alloc.Regions.{
  Given, given_cover, class_cover, classes_cover, classes_cover-set, total, blocks_at, blocks_cover,
  EveryBlock, given-le,
}
use tinyllama_c.Alloc.Known.{
  EveryChunk, get-EveryChunk, set-EveryClass, Entry, of_class, large, Invariant, write_self,
  write-EveryClass, write-Entry, more-Entry,
}

pub class_size-le : (f : ℕ) → f ≤ 10 → class_size f ≤ 8192
class_size-le f h = omega (arith, pow_mono f 10 h)

module _ {s : AllocSet} {es : List Given} (inv : Invariant s es) where
  split_once :
      (x : ℕ)
      → given_cover x es + classes_cover 0 x s.free_list + blocks_cover x (inv.head ∷ inv.tail) ≤ 1
  split_once x = omega (arith, inv.once x, ap (blocks_cover x) inv.split)

  -- A chunk from the block at the head.
  module _ (f : ℕ) (known : f ≤ 10)
      (room : inv.head.freeptr + (class_size f + alloc_chunk_size) ≤ inv.head.endptr) where
    abbrev carved : Given
    carved = record {
      chunk = inv.head.freeptr;
      len = class_size f + alloc_chunk_size;
      external = false;
    }

    abbrev n : ℕ
    n = inv.head.freeptr

    n-free : (given_cover n es ≡ 0) × (classes_cover 0 n s.free_list ≡ 0)
    n-free =
        let first = covers-first n (inv.head.endptr - n) (omega (arith, room)) in
        omega (arith, first, split_once n)

    pub carve-Invariant :
        Invariant
          (alloc_set_alloc_chunk_from_block s inv.head inv.tail (class_size f)).1
          (carved ∷ es)
    unfolding alloc_set_alloc_chunk_from_block
    carve-Invariant =
        let ((ordered, low), rest) = subst EveryBlock inv.split inv.blocks in
        let v = chunk_mask (n - inv.head.addr) (class_size f) in
        let (value, flag) =
          chunk_mask-value (n - inv.head.addr) (class_size f)
            (omega (arith, class_size-le f known)) in
        let self = write_self s.mask n v in
        record {
          head = record inv.head { freeptr = n + (class_size f + alloc_chunk_size) };
          tail = inv.tail;
          split = refl;
          shape = inv.shape;
          blocks = ((room, low), rest);
          free = write-EveryClass s.mask n v 0 s.free_list n-free.1 inv.free;
          entries =
              carved_entries v (ap chunk_is_external self ∙ flag) (ap chunk_get_value self ∙ value);
          once = λ x.
              let cut =
                covers-split n (class_size f + alloc_chunk_size) (inv.head.endptr - n) x
                  (omega (arith, room)) in
              let e : inv.head.endptr - (n + (class_size f + alloc_chunk_size))
                  ≡ inv.head.endptr - n - (class_size f + alloc_chunk_size) =
                omega arith in
              rw e (omega (arith, cut, split_once x));
          homes =
              mask-Homes s.mask s.owner n v s.set
                (ap s.owner (
                    chunk_block-chunk_mask n inv.head.addr (class_size f) inv.near.low
                      (omega (arith, room, inv.near.high)) (omega (arith, class_size-le f known)))
                  ∙ inv.near.owned)
                inv.homes;
          near = record {
            owned = inv.near.owned;
            low = omega (arith, inv.near.low);
            high = inv.near.high;
          };
          next = inv.next;
        }
      where
        carved_entries :
            (v : ℕ)
            → chunk_is_external (write_word n v s.mask n) ≡ false
            → chunk_get_value (write_word n v s.mask n) ≡ class_size f
            → (j : ℕ) (e : Given) → get_elem? (carved ∷ es) j ≡ some e
            → Entry (write_word n v s.mask) inv.tail e
        carved_entries v flag value zero e h =
            subst (Entry (write_word n v s.mask) inv.tail) (Option.some-injective _ _ h)
              (of_class f known refl refl flag value)
        carved_entries v flag value (suc j) e h =
            write-Entry s.mask n v inv.tail e (omega (arith, given-le n es j e h, n-free.0))
              (inv.entries j e h)

  -- A free chunk of its class.
  module _ (f : ℕ) (known : f ≤ 10) (c : ℕ) (cs : List ℕ)
      (found : get_or s.free_list f [] ≡ c ∷ cs) where
    abbrev reused : Given
    reused = record { chunk = c; len = class_size f + alloc_chunk_size; external = false }

    chunks : EveryChunk s.mask f (c ∷ cs)
    chunks =
        let e : 0 + f ≡ f = omega arith in
        subst (EveryChunk s.mask f) found (rw e at (get-EveryChunk s.mask 0 f s.free_list inv.free))

    pub reuse-Invariant : Invariant (record s { free_list = set s.free_list f cs }) (reused ∷ es)
    reuse-Invariant =
        let e : 0 + f ≡ f = omega arith in
        record {
          head = inv.head;
          tail = inv.tail;
          split = inv.split;
          shape = length-set s.free_list f cs ∙ inv.shape;
          blocks = inv.blocks;
          free = set-EveryClass s.mask 0 f s.free_list cs inv.free (rw e chunks.1);
          entries = reused_entries;
          once = λ x.
              let moved =
                rw e at (classes_cover-set x 0 f s.free_list cs (omega (arith, inv.shape))) in
              omega (arith, moved, ap (class_cover f x) found, inv.once x);
          homes = inv.homes;
          near = inv.near;
          next = inv.next;
        }
      where
        reused_entries :
            (j : ℕ) (e : Given) → get_elem? (reused ∷ es) j ≡ some e → Entry s.mask inv.tail e
        reused_entries zero e h =
            subst (Entry s.mask inv.tail) (Option.some-injective _ _ h)
              (of_class f known refl refl chunks.0.0 chunks.0.1)
        reused_entries (suc j) e h = inv.entries j e h

  -- A block that `malloc` gave, at the head of the list.
  module _ (addr size next : ℕ) (room : alloc_block_size ≤ size) (low : addr + size < 2 ^ 64)
      (short : size ≤ 2 ^ 30) (capped : next ≤ 2 ^ 30)
      (fresh : (x : ℕ) → covers addr size x + total s es x ≤ 1) where
    abbrev fresh_block : Block
    fresh_block = record { addr = addr; freeptr = addr + alloc_block_size; endptr = addr + size }

    abbrev grown : AllocSet
    grown = record s {
      blocks = fresh_block ∷ s.blocks;
      next_block_size = next;
      owner = write_word addr s.set s.owner;
    }

    unfoldable pub grow-Invariant : Invariant grown es
    grow-Invariant = record {
      head = fresh_block;
      tail = s.blocks;
      split = refl;
      shape = inv.shape;
      blocks = ((omega arith, low), inv.blocks);
      free = inv.free;
      entries =
          λ j e h. more-Entry (λ a. omega (arith, ap (blocks_at a) inv.split)) (inv.entries j e h);
      once = λ x.
          let cut = covers-split addr alloc_block_size size x room in
          let e : addr + size - (addr + alloc_block_size) ≡ size - alloc_block_size = omega arith in
          rw e (omega (arith, cut, fresh x));
      homes = owner-Homes s.mask s.owner addr s.set inv.homes;
      near = record {
        owned = write-same addr s.set s.owner;
        low = omega arith;
        high = omega (arith, short);
      };
      next = capped;
    }

  -- A block of its own for a large chunk.
  module _ (addr size : ℕ) (room : alloc_block_size + alloc_chunk_size ≤ size)
      (low : addr + size < 2 ^ 64) (fresh : (x : ℕ) → covers addr size x + total s es x ≤ 1) where
    abbrev own_block : Block
    own_block = record { addr = addr; freeptr = addr + size; endptr = addr + size }

    abbrev large_chunk : Given
    large_chunk = record {
      chunk = addr + alloc_block_size;
      len = size - alloc_block_size;
      external = true;
    }

    abbrev with_large : AllocSet
    with_large = record s {
      blocks = insert_second own_block s.blocks;
      mask = write_word (addr + alloc_block_size) external_mask s.mask;
      owner = write_word addr s.set s.owner;
    }

    chunk-free :
        (given_cover (addr + alloc_block_size) es ≡ 0)
        × (classes_cover 0 (addr + alloc_block_size) s.free_list ≡ 0)
    chunk-free =
        let n = addr + alloc_block_size in
        let inside : covers addr size n ≡ 1 = ground arith in omega (arith, inside, fresh n)

    pub large-Invariant : Invariant with_large (large_chunk ∷ es)
    large-Invariant =
        let n = addr + alloc_block_size in
        let split' : with_large.blocks ≡ inv.head ∷ own_block ∷ inv.tail =
          ap (insert_second own_block) inv.split in
        let (first, rest) = subst EveryBlock inv.split inv.blocks in
        record {
          head = inv.head;
          tail = own_block ∷ inv.tail;
          split = split';
          shape = inv.shape;
          blocks = subst EveryBlock (sym split') (first, ((omega arith, low), rest));
          free = write-EveryClass s.mask n external_mask 0 s.free_list chunk-free.1 inv.free;
          entries = large_entries;
          once = λ x.
              let cut = covers-split addr alloc_block_size size x (omega arith) in
              let none_left : covers (addr + size) (addr + size - (addr + size)) x ≡ 0 =
                ground arith in
              omega (
                arith,
                cut,
                none_left,
                fresh x,
                ap (blocks_cover x) inv.split,
                ap (blocks_cover x) split',
              );
          homes =
              mask-Homes s.mask (write_word addr s.set s.owner) n external_mask s.set
                (ap (write_word addr s.set s.owner) (own-chunk_block addr)
                  ∙ write-same addr s.set s.owner)
                (owner-Homes s.mask s.owner addr s.set inv.homes);
          near = record {
            owned = write-owner addr s.set inv.head.addr s.owner inv.near.owned;
            low = inv.near.low;
            high = inv.near.high;
          };
          next = inv.next;
        }
      where
        large_entries :
            (j : ℕ) (e : Given)
            → get_elem? (large_chunk ∷ es) j ≡ some e
            → Entry with_large.mask (own_block ∷ inv.tail) e
        large_entries zero e h =
            let n = addr + alloc_block_size in
            let self = write_self s.mask n external_mask in
            subst (Entry with_large.mask (own_block ∷ inv.tail)) (Option.some-injective _ _ h) (
              large refl (omega arith) (ap chunk_is_external self ∙ external_mask-IsExternal)
                (omega arith) (ground arith))
        large_entries (suc j) e h =
            let n = addr + alloc_block_size in
            more-Entry (λ a. omega arith)
              (write-Entry s.mask n external_mask inv.tail e
                (omega (arith, given-le n es j e h, chunk-free.0)) (inv.entries j e h))
