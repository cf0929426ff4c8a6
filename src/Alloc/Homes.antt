-- ===== src/Alloc/Homes.antt =====
-- From a chunk to its block and from the block to its context, in `src/asctx.c`.
use tinyllama_c.Prelude.{
  ap, sym, ◌/◌, ◌%◌, if◌then◌else◌, bit_and-mask, bit_and-eight, ℕ, ◌+◌, ◌-◌, ◌≤◌, ◌<◌, ◌^◌, ◌≡◌,
  ◌≢◌, refl, ◌∙◌, inl, inr, true, ◌==◌, arith, Bool-cases,
}
use tinyllama_c.Alloc.{
  chunk_get_offset, alloc_block_size, chunk_is_external, chunk_mask, external_mask, chunk_block,
  write_word,
}
use tinyllama_c.Alloc.Mask.{chunk_mask-fields, external_mask-IsExternal}

-- The block that a mask leads to from its chunk: the flag is bit 3, and the offset the bits from 34 on.
abbrev pub leads_to : ℕ → ℕ → ℕ
leads_to c m = if m / 8 % 2 == 0 then c - m / 2 ^ 34 % 2 ^ 30 else c - alloc_block_size

-- Wherever the mask of a chunk was written, the block that it leads to names the context.
abbrev pub Homes : (ℕ → ℕ) → (ℕ → ℕ) → ℕ → Type 0
Homes mask owner set = (c : ℕ) → mask c ≢ 0 → owner (leads_to c (mask c)) ≡ set

pub chunk_block-leads_to : (c m : ℕ) → chunk_block c m ≡ leads_to c m
unfolding chunk_block chunk_is_external chunk_get_offset
chunk_block-leads_to c m =
    let eight = bit_and-eight m in
    let offset = bit_and-mask 30 (m / 2 ^ 34) in ground (arith, eight, offset)

pub home :
    (mask owner : ℕ → ℕ) (set c : ℕ)
    → Homes mask owner set
    → mask c ≢ 0
    → owner (chunk_block c (mask c)) ≡ set
home mask owner set c homes written = ap owner (chunk_block-leads_to c (mask c)) ∙ homes c written

pub no_Homes : (owner : ℕ → ℕ) (set : ℕ) → Homes (λ c. 0) owner set
no_Homes owner set c written = absurd (written refl)

pub write-same : (addr set : ℕ) (owner : ℕ → ℕ) → write_word addr set owner addr ≡ set
unfolding write_word
write-same addr set owner = ground arith

-- A block of the context at any address.
pub write-owner :
    (addr set a : ℕ) (owner : ℕ → ℕ) → owner a ≡ set → write_word addr set owner a ≡ set
unfolding write_word
write-owner addr set a owner h = elim (Bool-cases (a == addr)) [
  | inl here ↦ rw here refl
  | inr other ↦ rw other h
]

pub owner-Homes :
    (mask owner : ℕ → ℕ) (addr set : ℕ)
    → Homes mask owner set
    → Homes mask (write_word addr set owner) set
owner-Homes mask owner addr set homes c written =
    write-owner addr set (leads_to c (mask c)) owner (homes c written)

-- The mask of one more chunk.
pub mask-Homes :
    (mask owner : ℕ → ℕ) (n v set : ℕ)
    → owner (chunk_block n v) ≡ set
    → Homes mask owner set
    → Homes (write_word n v mask) owner set
unfolding write_word
mask-Homes mask owner n v set here homes c written =
    let there : owner (leads_to n v) ≡ set = ap owner (sym (chunk_block-leads_to n v)) ∙ here in
    elim (Bool-cases (c == n)) [
      | inl e ↦ let same : c ≡ n = ground (arith, e) in rw (e, same) there
      | inr other ↦ rw other (homes c (rw other at written))
    ]

pub external-chunk_block :
    (c m : ℕ) → chunk_is_external m ≡ true → chunk_block c m ≡ c - alloc_block_size
unfolding chunk_block
external-chunk_block c m flag = rw flag refl

pub own-chunk_block : (addr : ℕ) → chunk_block (addr + alloc_block_size) external_mask ≡ addr
own-chunk_block addr =
    let back : addr + alloc_block_size - alloc_block_size ≡ addr = omega arith in
    external-chunk_block (addr + alloc_block_size) external_mask external_mask-IsExternal ∙ back

-- A chunk less than 2^30 bytes into its block.
pub chunk_block-chunk_mask :
    (n addr value : ℕ)
    → addr ≤ n
    → n < addr + 2 ^ 30
    → value < 2 ^ 30
    → chunk_block n (chunk_mask (n - addr) value) ≡ addr
unfolding chunk_block
chunk_block-chunk_mask n addr value low near small =
    let (offset, _, flag, _) = chunk_mask-fields (n - addr) value (omega (arith, near)) small in
    let back : n - (n - addr) ≡ addr = omega arith in rw (flag, offset) back

-- A mask with a flag or a value was written.
pub external-written : (m : ℕ) → chunk_is_external m ≡ true → m ≢ 0
unfolding chunk_is_external
external-written m flag e = absurd (cc)
