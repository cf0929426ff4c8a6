-- ===== src/Alloc/Copied.antt =====
-- The bytes that `alloc_set_realloc` of `src/asctx.c` copies.
use tinyllama_c.Prelude.{
  covers, ℕ, ◌+◌, ◌-◌, ◌<◌, ◌≡◌, refl, inl, inr, true, List, leb, ltb, ◌&&◌, arith, Bool-cases,
}
use tinyllama_c.Alloc.{AllocSet, copy_bytes}
use tinyllama_c.Alloc.Regions.{Given}
use tinyllama_c.Alloc.Known.{Invariant}

pub copy-inside :
    (to from n i : ℕ) (bytes : ℕ → ℕ)
    → i < n
    → copy_bytes to from n bytes (to + i) ≡ bytes (from + i)
unfolding copy_bytes
copy-inside to from n i bytes h =
    let below : leb to (to + i) ≡ true = ground arith in
    let above : ltb (to + i) (to + n) ≡ true = ground (arith, h) in
    let back : to + i - to ≡ i = omega arith in rw (below, above, back) refl

pub copy-outside :
    (to from n x : ℕ) (bytes : ℕ → ℕ) → covers to n x ≡ 0 → copy_bytes to from n bytes x ≡ bytes x
unfolding copy_bytes
copy-outside to from n x bytes h = elim (Bool-cases (leb to x && ltb x (to + n))) [
  | inl inside ↦ absurd (ground (arith, inside, h))
  | inr outside ↦ rw outside refl
]

-- Other bytes.
pub with_bytes :
    {s : AllocSet} {es : List Given} (bytes : ℕ → ℕ)
    → Invariant s es
    → Invariant (record s { bytes = bytes }) es
with_bytes bytes inv = record {
  head = inv.head;
  tail = inv.tail;
  split = inv.split;
  shape = inv.shape;
  blocks = inv.blocks;
  free = inv.free;
  entries = inv.entries;
  once = inv.once;
  homes = inv.homes;
  near = inv.near;
  next = inv.next;
}
