-- ===== src/Alloc/Moved.antt =====
-- The blocks after `realloc` moved one, in `src/asctx.c`.
use tinyllama_c.Prelude.{
  covers, ℕ, ◌+◌, ◌-◌, ◌≤◌, ◌<◌, ◌^◌, ◌≡◌, ◌≢◌, inl, inr, List, [], ◌∷◌, ◌==◌, arith, Bool-cases,
}
use tinyllama_c.Alloc.{Block, alloc_block_size, moved_block, unlink}
use tinyllama_c.Alloc.Regions.{blocks_at, blocks_cover, EveryBlock}

-- A block that moved.
module _ (old addr end : ℕ) where
  pub moved-at :
      (a : ℕ) (bs : List Block)
      → a ≢ old
      → blocks_at a bs ≤ blocks_at a (moved_block old addr end bs)
  unfolding moved_block
  moved-at a [] ne = omega arith
  moved-at a (b ∷ bs) ne = elim (Bool-cases (b.addr == old)) [
    | inl here ↦ rw here (ground (arith, here, ne))
    | inr other ↦ rw other (omega (arith, moved-at a bs ne))
  ]

  pub moved-new :
      (bs : List Block) → 1 ≤ blocks_at old bs → 1 ≤ blocks_at addr (moved_block old addr end bs)
  unfolding moved_block
  moved-new [] h = h
  moved-new (b ∷ bs) h = elim (Bool-cases (b.addr == old)) [
    | inl here ↦ rw here (ground arith)
    | inr other ↦ rw other (omega (arith, moved-new bs (omega (arith, rw other at h))))
  ]

  pub moved-cover :
      (x : ℕ) (bs : List Block)
      → blocks_cover x (moved_block old addr end bs)
        ≤ covers addr alloc_block_size x + blocks_cover x (unlink old bs)
  unfolding moved_block unlink
  moved-cover x [] = omega arith
  moved-cover x (b ∷ bs) = elim (Bool-cases (b.addr == old)) [
    | inl here ↦
        let none_left : covers end (end - end) x ≡ 0 = ground arith in
        rw here (omega (arith, none_left))
    | inr other ↦ rw other (omega (arith, moved-cover x bs))
  ]

  pub moved-EveryBlock :
      end < 2 ^ 64 → (bs : List Block) → EveryBlock bs → EveryBlock (moved_block old addr end bs)
  unfolding moved_block
  moved-EveryBlock low [] h = tt
  moved-EveryBlock low (b ∷ bs) (hb, h) = elim (Bool-cases (b.addr == old)) [
    | inl here ↦ rw here ((omega arith, low), h)
    | inr other ↦ rw other (hb, moved-EveryBlock low bs h)
  ]
