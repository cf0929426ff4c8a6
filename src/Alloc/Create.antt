-- ===== src/Alloc/Create.antt =====
-- A new context, and a reset one, of `src/asctx.c`.
use mathlib.Core.Option
use mathlib.Core.Path.{subst}
use tinyllama_c.Prelude.{
  covers, ℕ, zero, suc, ◌+◌, ◌-◌, ◌≤◌, ◌<◌, ◌^◌, ◌≡◌, refl, List, [], ◌∷◌, ap, sym, inl, inr, true,
  false, Bool-cases, some, ◌==◌, get_elem?, replicate, arith,
}
use tinyllama_c.Alloc.{
  AllocSet, alloc_set_cxt_size, alloc_block_size, alloc_set_memory_context_create, alloc_set_reset,
  keep_keeper, Block, keeper, maxalign, write_word,
}
use tinyllama_c.Alloc.Homes.{no_Homes, write-same}
use tinyllama_c.Alloc.Regions.{
  Given, EveryBlock, blocks_at, blocks_at-le, blocks_cover, classes_cover,
}
use tinyllama_c.Alloc.Known.{EveryClass, Invariant}

no_chunks : (mask : ℕ → ℕ) (f n : ℕ) → EveryClass mask f (replicate n [])
no_chunks mask f zero = tt
no_chunks mask f (suc n) = (tt, no_chunks mask (suc f) n)

-- A context whose block size is at least that of the header of a block, and so far below 2^30 that the
-- offsets of its chunks are below it, and that ends below 2^64, has the invariant, with nothing given out.
pub alloc_set_memory_context_create-Invariant :
    (addr block_size : ℕ)
    → alloc_block_size ≤ block_size
    → block_size ≤ 2 ^ 30 - 8
    → addr + maxalign (alloc_set_cxt_size + block_size) < 2 ^ 64
    → Invariant (alloc_set_memory_context_create addr block_size) []
unfolding alloc_set_memory_context_create maxalign
alloc_set_memory_context_create-Invariant addr block_size wide small low = record {
  head = record {
    addr = keeper addr;
    freeptr = keeper addr + alloc_block_size;
    endptr = addr + maxalign (alloc_set_cxt_size + block_size);
  };
  tail = [];
  split = refl;
  shape = refl;
  blocks = ((omega arith, omega (arith, low)), tt);
  free = no_chunks (λ c. 0) 0 11;
  entries = λ j e h. absurd (cc);
  once = λ x. ground (arith, wide, small);
  homes = no_Homes (write_word (keeper addr) addr (λ a. 0)) addr;
  near = record {
    owned = write-same (keeper addr) addr (λ a. 0);
    low = omega arith;
    high = omega (arith, small);
  };
  next = omega (arith, small);
}

keep_none : (set : ℕ) (bs : List Block) → blocks_at (keeper set) bs ≡ 0 → keep_keeper set bs ≡ []
unfolding keep_keeper
keep_none set [] h = refl
keep_none set (b ∷ bs) h = elim (Bool-cases (b.addr == keeper set)) [
  | inl here ↦ absurd (ground (arith, here, h))
  | inr other ↦ rw other (keep_none set bs (ground (arith, other, h)))
]

keep_one :
    (set : ℕ) (bs : List Block) (i : ℕ) (k : Block)
    → blocks_at (keeper set) bs ≤ 1
    → get_elem? bs i ≡ some k
    → k.addr ≡ keeper set
    → keep_keeper set bs ≡ record k { freeptr = k.addr + alloc_block_size } ∷ []
unfolding keep_keeper
keep_one set [] i k once h at_keeper = absurd (cc)
keep_one set (b ∷ bs) zero k once h at_keeper =
    let same : b ≡ k = Option.some-injective _ _ h in
    let here : (b.addr == keeper set) ≡ true =
      ground (arith, ap (λ (w : Block). w.addr) same, at_keeper) in
    rw (here, keep_none set bs (ground (arith, here, once)))
      (ap (λ (w : Block). record w { freeptr = w.addr + alloc_block_size } ∷ []) same)
keep_one set (b ∷ bs) (suc i) k once h at_keeper =
    let other : (b.addr == keeper set) ≡ false = elim (Bool-cases (b.addr == keeper set)) [
      | inl here ↦ absurd (ground (arith, here, once, linked_once i bs h))
      | inr other ↦ other
    ] in
    rw other (keep_one set bs i k (omega (arith, once)) h at_keeper)
  where
    linked_once :
        (i : ℕ) (bs : List Block) → get_elem? bs i ≡ some k → 1 ≤ blocks_at (keeper set) bs
    linked_once i [] h = absurd (cc)
    linked_once zero (c ∷ bs) h =
        let same : c.addr ≡ k.addr = ap (λ (w : Block). w.addr) (Option.some-injective _ _ h) in
        ground (arith, same, at_keeper)
    linked_once (suc i) (c ∷ bs) h = omega (arith, linked_once i bs h)

-- A context with the invariant whose keeper is in its list, as it was made, has it after a reset, with nothing given
-- out; the keeper is the only block left, and is free from its header on.
pub alloc_set_reset-Invariant :
    (s : AllocSet) (es : List Given) (i : ℕ) (k : Block)
    → Invariant s es
    → get_elem? s.blocks i ≡ some k
    → k.addr ≡ keeper s.set
    → k.addr + alloc_block_size ≤ k.endptr
    → k.endptr < 2 ^ 64
    → k.endptr ≤ k.addr + 2 ^ 30
    → s.owner k.addr ≡ s.set
    → Invariant (alloc_set_reset s) []
      × ((alloc_set_reset s).blocks ≡ record k { freeptr = k.addr + alloc_block_size } ∷ [])
unfolding alloc_set_reset
alloc_set_reset-Invariant s es i k inv linked at_keeper wide low short owned =
    let only : keep_keeper s.set s.blocks ≡ record k { freeptr = k.addr + alloc_block_size } ∷ [] =
      keep_one s.set s.blocks i k
        (omega (arith, blocks_at-le (keeper s.set) s.blocks, inv.once (keeper s.set))) linked
        at_keeper in
    (
      record {
        head = record k { freeptr = k.addr + alloc_block_size };
        tail = [];
        split = only;
        shape = refl;
        blocks = subst EveryBlock (sym only) ((wide, low), tt);
        free = no_chunks s.mask 0 11;
        entries = λ j e h. absurd (cc);
        once = λ x.
            let one : covers k.addr alloc_block_size x
                  + covers (k.addr + alloc_block_size) (k.endptr - (k.addr + alloc_block_size)) x
                ≤ 1 =
              ground arith in
            let none_free = no_class s.mask x 0 11 in
            omega (arith, ap (blocks_cover x) only, one, none_free);
        homes = inv.homes;
        near = record { owned = owned; low = omega arith; high = short };
        next = inv.next;
      },
      only,
    )
  where
    no_class : (mask : ℕ → ℕ) (x f n : ℕ) → classes_cover f x (replicate n []) ≡ 0
    no_class mask x f zero = refl
    no_class mask x f (suc n) = omega (arith, no_class mask x (suc f) n)
