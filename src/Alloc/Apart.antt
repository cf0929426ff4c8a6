-- ===== src/Alloc/Apart.antt =====
-- Allocating from a context of `src/asctx.c`, and freeing.
use mathlib.Core.Option
use mathlib.Core.Path.{subst}
use tinyllama_c.Prelude.{
  bind-inv, covers, ℕ, ◌+◌, ◌-◌, ◌≤◌, ◌<◌, ◌^◌, ◌≡◌, refl, ◌∙◌, ap, sym, inl, inr, true, false,
  List, [], ◌∷◌, Option, none, some, ltb, if◌then◌else◌, get_or, set, arith, Bool-cases,
}
use tinyllama_c.Alloc.{
  Block, AllocSet, Allocated, alloc_block_size, alloc_chunk_size, alloc_chunk_limit, class_size,
  alloc_set_alloc_chunk_from_block, alloc_set_alloc_new_block, alloc_set_alloc_large,
  alloc_of_class, alloc_of_list, alloc_of_block, alloc_set_alloc, block_bytes, grown_block_size,
  large_bytes, maxalign, sub64, alloc_set_free_index,
}
use tinyllama_c.Alloc.Index.{Class, alloc_set_free_index-Class}
use tinyllama_c.Alloc.Regions.{Given, total, EveryBlock}
use tinyllama_c.Alloc.Known.{Invariant}
use tinyllama_c.Alloc.Give.{
  class_size-le, carve-Invariant, reuse-Invariant, grow-Invariant, large-Invariant,
}

-- The bytes that an allocation asks `malloc` for, when it does.
abbrev pub class_or_zero : Option ℕ → ℕ
class_or_zero none = 0
class_or_zero (some f) = f

unfoldable pub asked : AllocSet → ℕ → ℕ
asked s size =
    if ltb alloc_chunk_limit size
    then large_bytes size
    else block_bytes s (class_size (class_or_zero (alloc_set_free_index size)))

-- An allocation that gave out `size` bytes.
pub record Served (es : List Given) (size : ℕ) (o : Option Allocated) : Type 0 where
  pub result : Allocated
  pub entry : Given
  pub returns : o ≡ some result
  pub pointer : result.0 ≡ entry.chunk + alloc_chunk_size
  pub room : size + alloc_chunk_size ≤ entry.len
  pub keeps : Invariant result.1 (entry ∷ es)

pub large_bytes-room : (size : ℕ) → size < 2 ^ 63 → size + 56 ≤ large_bytes size
unfolding maxalign
large_bytes-room size h = omega arith

block_bytes-room : (s : AllocSet) (n : ℕ) → n + 56 ≤ block_bytes s n
unfolding block_bytes
block_bytes-room s n = ground arith

block_bytes-bound :
    (s : AllocSet) (n : ℕ) → n ≤ 8192 → s.next_block_size ≤ 2 ^ 30 → block_bytes s n ≤ 2 ^ 30
unfolding block_bytes
block_bytes-bound s n hn h = ground (arith, hn, h)

grown_block_size-bound : (n : ℕ) → grown_block_size n ≤ 2 ^ 30
unfolding grown_block_size
grown_block_size-bound n = ground arith

of_free :
    (addr : ℕ) (s : AllocSet) (f c : ℕ) (cs : List ℕ)
    → get_or s.free_list f [] ≡ c ∷ cs
    → alloc_of_class addr s f
      ≡ some (c + alloc_chunk_size, record s { free_list = set s.free_list f cs })
unfolding alloc_of_class alloc_of_list
of_free addr s f c cs e = ap (alloc_of_list addr s f) e

of_block :
    (addr : ℕ) (s : AllocSet) (f : ℕ) (b : Block) (bs : List Block)
    → get_or s.free_list f [] ≡ []
    → s.blocks ≡ b ∷ bs
    → alloc_of_class addr s f
      ≡ some (
          if ltb (sub64 b.endptr b.freeptr) (class_size f + alloc_chunk_size)
          then alloc_set_alloc_new_block addr s (class_size f)
          else alloc_set_alloc_chunk_from_block s b bs (class_size f))
unfolding alloc_of_class alloc_of_list alloc_of_block
of_block addr s f b bs e split = ap (alloc_of_list addr s f) e ∙ ap (alloc_of_block addr s f) split

class-bytes :
    (addr : ℕ) (s : AllocSet) (f : ℕ) (r : Allocated)
    → alloc_of_class addr s f ≡ some r
    → r.1.bytes ≡ s.bytes
unfolding alloc_of_class alloc_of_list alloc_of_block alloc_set_alloc_new_block
    alloc_set_alloc_chunk_from_block
class-bytes addr s f r h = by_list (get_or s.free_list f []) h
  where
    by_block : (bs : List Block) → alloc_of_block addr s f bs ≡ some r → r.1.bytes ≡ s.bytes
    by_block [] h = absurd (cc)
    by_block (b ∷ bs) h =
        elim (Bool-cases (ltb (sub64 b.endptr b.freeptr) (class_size f + alloc_chunk_size))) [
          | inl full ↦
              ap (λ (w : Allocated). w.1.bytes) (sym (Option.some-injective _ _ (rw full at h)))
          | inr roomy ↦
              ap (λ (w : Allocated). w.1.bytes) (sym (Option.some-injective _ _ (rw roomy at h)))
        ]

    by_list : (cs : List ℕ) → alloc_of_list addr s f cs ≡ some r → r.1.bytes ≡ s.bytes
    by_list [] h = by_block s.blocks h
    by_list (c ∷ cs) h = ap (λ (w : Allocated). w.1.bytes) (sym (Option.some-injective _ _ h))

module _ {s : AllocSet} {es : List Given} (inv : Invariant s es) (addr size : ℕ) where
  serve_large :
      size < 2 ^ 63
      → addr + large_bytes size < 2 ^ 64
      → ((x : ℕ) → covers addr (large_bytes size) x + total s es x ≤ 1)
      → Served es size (some (alloc_set_alloc_large addr s size))
  unfolding alloc_set_alloc_large
  serve_large small low fresh =
      let room = large_bytes-room size small in
      record {
        result = alloc_set_alloc_large addr s size;
        entry = record {
          chunk = addr + alloc_block_size;
          len = large_bytes size - alloc_block_size;
          external = true;
        };
        returns = refl;
        pointer = refl;
        room = omega (arith, room);
        keeps = large-Invariant inv addr (large_bytes size) (omega (arith, room)) low fresh;
      }

  module _ (f : ℕ) (known : f ≤ 10) (holds : size ≤ class_size f) where
    cut_head :
        inv.head.freeptr + (class_size f + alloc_chunk_size) ≤ inv.head.endptr
        → Served es size
            (some (alloc_set_alloc_chunk_from_block s inv.head inv.tail (class_size f)))
    unfolding alloc_set_alloc_chunk_from_block
    cut_head room = record {
      result = alloc_set_alloc_chunk_from_block s inv.head inv.tail (class_size f);
      entry = record {
        chunk = inv.head.freeptr;
        len = class_size f + alloc_chunk_size;
        external = false;
      };
      returns = refl;
      pointer = refl;
      room = omega (arith, holds);
      keeps = carve-Invariant inv f known room;
    }

    module _ (low : addr + block_bytes s (class_size f) < 2 ^ 64)
        (fresh : (x : ℕ) → covers addr (block_bytes s (class_size f)) x + total s es x ≤ 1) where
      cut_fresh : Served es size (some (alloc_set_alloc_new_block addr s (class_size f)))
      unfolding alloc_set_alloc_chunk_from_block alloc_set_alloc_new_block grow-Invariant
      cut_fresh =
          let bytes = block_bytes-room s (class_size f) in
          let wide =
            grow-Invariant inv addr (block_bytes s (class_size f))
              (grown_block_size s.next_block_size) (omega (arith, bytes)) low
              (block_bytes-bound s (class_size f) (class_size-le f known) inv.next)
              (grown_block_size-bound s.next_block_size) fresh in
          record {
            result = alloc_set_alloc_new_block addr s (class_size f);
            entry = record {
              chunk = addr + alloc_block_size;
              len = class_size f + alloc_chunk_size;
              external = false;
            };
            returns = refl;
            pointer = refl;
            room = omega (arith, holds);
            keeps = carve-Invariant wide f known (omega (arith, bytes));
          }

      serve_fresh : get_or s.free_list f [] ≡ [] → Served es size (alloc_of_class addr s f)
      serve_fresh empty =
          let (first, rest) = subst EveryBlock inv.split inv.blocks in
          rw (of_block addr s f inv.head inv.tail empty inv.split)
            (elim (Bool-cases
              (ltb (sub64 inv.head.endptr inv.head.freeptr) (class_size f + alloc_chunk_size))) [
                | inl full ↦ rw full cut_fresh
                | inr roomy ↦ rw roomy (cut_head (ground (arith, roomy, first)))
              ])

      serve_class : Served es size (alloc_of_class addr s f)
      serve_class = by_list (get_or s.free_list f []) refl
        where
          by_list :
              (cs : List ℕ)
              → get_or s.free_list f [] ≡ cs
              → Served es size (alloc_of_class addr s f)
          by_list [] e = serve_fresh e
          by_list (c ∷ cs) e = record {
            result = (c + alloc_chunk_size, record s { free_list = set s.free_list f cs });
            entry = record { chunk = c; len = class_size f + alloc_chunk_size; external = false };
            returns = of_free addr s f c cs e;
            pointer = refl;
            room = omega (arith, holds);
            keeps = reuse-Invariant inv f known c cs e;
          }

-- No way to allocate changes what the memory holds.
pub alloc_set_alloc-bytes :
    (addr : ℕ) (s : AllocSet) (size : ℕ) (r : Allocated)
    → alloc_set_alloc addr s size ≡ some r
    → r.1.bytes ≡ s.bytes
unfolding alloc_set_alloc alloc_set_alloc_large Option.bind
alloc_set_alloc-bytes addr s size r h = elim (Bool-cases (ltb alloc_chunk_limit size)) [
  | inl big ↦ ap (λ (w : Allocated). w.1.bytes) (sym (Option.some-injective _ _ (rw big at h)))
  | inr fits ↦
      let (f, _, e) =
        bind-inv (alloc_set_free_index size) (alloc_of_class addr s) r (rw fits at h) in
      class-bytes addr s f r e
]

-- Where what `malloc` gives shares no byte with what the context has, allocating a size below 2^63
-- returns a chunk with room for it, and with the chunk the context keeps its invariant: no byte is in
-- two of the chunks given out, the free chunks, the headers and the free ends of blocks.
pub alloc_set_alloc-Served :
    (addr : ℕ) (s : AllocSet) (size : ℕ) (es : List Given)
    → Invariant s es
    → size < 2 ^ 63
    → addr + asked s size < 2 ^ 64
    → ((x : ℕ) → covers addr (asked s size) x + total s es x ≤ 1)
    → Served es size (alloc_set_alloc addr s size)
unfolding alloc_set_alloc asked Option.bind
alloc_set_alloc-Served addr s size es inv small low fresh =
    elim (Bool-cases (ltb alloc_chunk_limit size)) [
      | inl big ↦ rw big (serve_large inv addr size small (rw big at low) (rw big at fresh))
      | inr fits ↦ rw fits (
          by_class (alloc_set_free_index-Class size (ground (arith, fits))) (rw fits at low)
            (rw fits at fresh))
    ]
  where
    by_class :
        (f : ℕ) × Class size f
        → addr + block_bytes s (class_size (class_or_zero (alloc_set_free_index size))) < 2 ^ 64
        → ((x : ℕ)
            → covers addr (block_bytes s (class_size (class_or_zero (alloc_set_free_index size)))) x
                + total s es x
              ≤ 1)
        → Served es size (Option.bind (alloc_set_free_index size) (alloc_of_class addr s))
    by_class (f, c) low fresh =
        subst
          (λ o.
            addr + block_bytes s (class_size (class_or_zero o)) < 2 ^ 64
            → ((x : ℕ)
                → covers addr (block_bytes s (class_size (class_or_zero o))) x + total s es x ≤ 1)
            → Served es size (Option.bind o (alloc_of_class addr s)))
          (sym c.index) (serve_class inv addr size f c.known c.holds) low fresh
