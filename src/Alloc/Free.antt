-- ===== src/Alloc/Free.antt =====
-- Freeing a chunk of a context, in `src/asctx.c`.
use mathlib.Core.Path.{subst}
use tinyllama_c.Prelude.{
  covers, ℕ, ◌+◌, ◌-◌, ◌≤◌, ◌≡◌, refl, ◌∙◌, ap, sym, true, false, List, [], ◌∷◌, some, get_or,
  get_elem?, set, ◌==◌, ◌≢◌, arith, length-set,
}
use tinyllama_c.Alloc.{
  AllocSet, alloc_block_size, alloc_chunk_size, class_size, alloc_set_free, unlink,
  chunk_is_external, chunk_get_value, chunk_block,
}
use tinyllama_c.Alloc.Homes.{external-chunk_block, external-written, home}
use tinyllama_c.Alloc.Regions.{
  Given, given_cover, class_cover, classes_cover-set, blocks_at, without, given_cover-without,
  get_elem?-without, unlink-cover, unlink-at, unlink-EveryBlock,
}
use tinyllama_c.Alloc.Known.{
  EveryChunk, get-EveryChunk, set-EveryClass, Entry, of_class, large, Invariant, index_of_class,
  not_head, other_base, class_size-pos,
}

-- What freeing entry `j` leaves.
pub record Freed (s : AllocSet) (es : List Given) (j : ℕ) (e : Given) : Type 0 where
  pub rest : AllocSet
  pub returns : alloc_set_free s (e.chunk + alloc_chunk_size) ≡ some rest
  pub keeps : Invariant rest (without j es)
  pub same : rest.bytes ≡ s.bytes

zero_value : chunk_get_value 0 ≡ 0
unfolding chunk_get_value
zero_value = refl

pub value_written : (f m : ℕ) → chunk_get_value m ≡ class_size f → m ≢ 0
value_written f m value none_there =
    absurd (omega (arith, class_size-pos f, sym value ∙ ap chunk_get_value none_there ∙ zero_value))

-- The block of a chunk leads back to the context.
pub in_context :
    {s : AllocSet} {es : List Given} (inv : Invariant s es) (e : Given)
    → s.mask e.chunk ≢ 0
    → (s.owner (chunk_block e.chunk (s.mask e.chunk)) == s.set) ≡ true
in_context {s = s} inv e written =
    let named = home s.mask s.owner s.set e.chunk inv.homes written in ground (arith, named)

module _ {s : AllocSet} {es : List Given} (inv : Invariant s es) (j : ℕ) (e : Given)
    (at_j : get_elem? es j ≡ some e) where
  pub free_of_class :
      (f : ℕ)
      → f ≤ 10
      → e.len ≡ class_size f + alloc_chunk_size
      → chunk_is_external (s.mask e.chunk) ≡ false
      → chunk_get_value (s.mask e.chunk) ≡ class_size f
      → Freed s es j e
  unfolding alloc_set_free
  free_of_class f known len flag value =
      let back : e.chunk + alloc_chunk_size - alloc_chunk_size ≡ e.chunk = omega arith in
      let home = in_context inv e (λ m. value_written f (s.mask e.chunk) value m) in
      let zf : 0 + f ≡ f = omega arith in
      let old = get_or s.free_list f [] in
      let old_chunks : EveryChunk s.mask f old =
        rw zf at (get-EveryChunk s.mask 0 f s.free_list inv.free) in
      record {
        rest = record s { free_list = set s.free_list f (e.chunk ∷ old) };
        returns = rw (back, home, flag, value, index_of_class f known) refl;
        keeps = record {
          head = inv.head;
          tail = inv.tail;
          split = inv.split;
          shape = length-set s.free_list f (e.chunk ∷ old) ∙ inv.shape;
          blocks = inv.blocks;
          free = set-EveryClass s.mask 0 f s.free_list (e.chunk ∷ old) inv.free (
              subst (λ k. EveryChunk s.mask k (e.chunk ∷ old)) (sym zf)
                ((flag, value), old_chunks));
          entries = λ i d at_i.
              let (k, at_k, apart) = get_elem?-without es j i e d at_j at_i in inv.entries k d at_k;
          once = λ x.
              let moved =
                classes_cover-set x 0 f s.free_list (e.chunk ∷ old) (omega (arith, inv.shape)) in
              let taken : covers e.chunk (class_size f + alloc_chunk_size) x
                    + given_cover x (without j es)
                  ≡ given_cover x es =
                rw len at (given_cover-without x es j e at_j) in
              omega (
                arith,
                moved,
                taken,
                ap (λ k. class_cover k x old) zf,
                ap (λ k. class_cover k x (e.chunk ∷ old)) zf,
                inv.once x,
              );
          homes = inv.homes;
          near = inv.near;
          next = inv.next;
        };
        same = refl;
      }

  module _ (len : alloc_chunk_size ≤ e.len) (base : alloc_block_size ≤ e.chunk)
      (linked : 1 ≤ blocks_at (e.chunk - alloc_block_size) inv.tail) where
    abbrev a : ℕ
    a = e.chunk - alloc_block_size

    unlinked : unlink a s.blocks ≡ inv.head ∷ unlink a inv.tail
    unfolding unlink
    unlinked = ap (unlink a) inv.split ∙ rw (not_head inv a linked) refl

    other_Entry :
        (d : Given)
        → ((x : ℕ) → covers e.chunk e.len x + covers d.chunk d.len x ≤ 1)
        → Entry s.mask inv.tail d
        → Entry s.mask (unlink a inv.tail) d
    other_Entry d apart (of_class f known ext len flag value) = of_class f known ext len flag value
    other_Entry d apart (large ext dlen flag dbase dlinked) =
        let ne = other_base e d len base dlen dbase (apart e.chunk) in
        large ext dlen flag dbase
          (omega (arith, unlink-at a (d.chunk - alloc_block_size) inv.tail ne, dlinked))

    pub free_large : chunk_is_external (s.mask e.chunk) ≡ true → Freed s es j e
    unfolding alloc_set_free
    free_large flag =
        let back : e.chunk + alloc_chunk_size - alloc_chunk_size ≡ e.chunk = omega arith in
        let home = in_context inv e (external-written (s.mask e.chunk) flag) in
        record {
          rest = record s { blocks = unlink a s.blocks };
          returns = rw (back, home, flag, external-chunk_block e.chunk (s.mask e.chunk) flag) refl;
          keeps = record {
            head = inv.head;
            tail = unlink a inv.tail;
            split = unlinked;
            shape = inv.shape;
            blocks = unlink-EveryBlock a s.blocks inv.blocks;
            free = inv.free;
            entries = λ i d at_i.
                let (k, at_k, apart) = get_elem?-without es j i e d at_j at_i in
                other_Entry d (λ x. omega (arith, apart x, inv.once x)) (inv.entries k d at_k);
            once = λ x.
                omega
                  (arith, unlink-cover x a s.blocks, given_cover-without x es j e at_j, inv.once x);
            homes = inv.homes;
            near = inv.near;
            next = inv.next;
          };
          same = refl;
        }

pub alloc_set_free-Freed :
    (s : AllocSet) (es : List Given) (j : ℕ) (e : Given)
    → Invariant s es
    → get_elem? es j ≡ some e
    → Freed s es j e
alloc_set_free-Freed s es j e inv at_j = by_entry (inv.entries j e at_j)
  where
    by_entry : Entry s.mask inv.tail e → Freed s es j e
    by_entry (of_class f known ext len flag value) =
        free_of_class inv j e at_j f known len flag value
    by_entry (large ext len flag base linked) = free_large inv j e at_j len base linked flag
