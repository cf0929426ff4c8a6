-- ===== src/Alloc.antt =====
-- The memory context of `src/asctx.c`, on a machine with pointers of eight bytes. The doubly linked
-- list of blocks is a list in its order, and so is each list of free chunks. The address that `malloc`
-- or `realloc` returns, where it is called, is an argument; allocation does not fail.
pub mod Index
pub mod Mask
pub mod Homes
pub mod Regions
pub mod Known
pub mod Give
pub mod Apart
pub mod Free
pub mod Moved
pub mod Copied
pub mod Resized
pub mod Resize
pub mod Create
use mathlib.Core.Option
use tinyllama_c.Prelude.{
  ℕ, zero, suc, ◌+◌, ◌-◌, ◌*◌, ◌/◌, ◌%◌, ◌^◌, Bool, true, false, not, List, [], ◌∷◌, ◌++◌, Option,
  none, some, ltb, leb, ◌&&◌, ◌==◌, if◌then◌else◌, get_or, set, replicate, bit_and, bit_or,
}

abbrev pub u64 : ℕ → ℕ
u64 n = n % 2 ^ 64

-- `a - b`, of sizes
abbrev pub sub64 : ℕ → ℕ → ℕ
sub64 a b = (a + 2 ^ 64 - b) % 2 ^ 64

-- `ALLOC_MINBITS`
abbrev pub alloc_minbits : ℕ
alloc_minbits = 3

abbrev pub alloc_freelists_num : ℕ
alloc_freelists_num = 11

abbrev pub alloc_chunk_limit : ℕ
alloc_chunk_limit = 2 ^ (11 + 3 - 1)

abbrev pub default_max_block_size : ℕ
default_max_block_size = 8 * 1024 * 1024

-- The sizes of `AllocSetContext`, `AllocBlockData` and `AllocChunkData`.
abbrev pub alloc_set_cxt_size : ℕ
alloc_set_cxt_size = 104

abbrev pub alloc_block_size : ℕ
alloc_block_size = 40

abbrev pub alloc_chunk_size : ℕ
alloc_chunk_size = 16

-- `((LEN) + 7) & ~7`
unfoldable pub maxalign : ℕ → ℕ
maxalign len = u64 (len + 7) / 8 * 8

abbrev pub leftmost_one_pos : List ℕ
leftmost_one_pos =
    0
    ∷ 0
    ∷ (replicate 2 1
        ++ (replicate 4 2
            ++ (replicate 8 3
                ++ (replicate 16 4 ++ (replicate 32 5 ++ (replicate 64 6 ++ replicate 128 7))))))

-- The loop from `shift` on, for the rounds until it is 0; `none` for a word of 0.
unfoldable pub leftmost_from : ℕ → ℕ → ℕ → Option ℕ
leftmost_from zero shift word = none
leftmost_from (suc f) shift word =
    let rest = leftmost_from f (shift - 8) word in
    if word / 2 ^ shift == 0
    then rest
    else some (shift + get_or leftmost_one_pos (word / 2 ^ shift % 256) 0)

unfoldable pub leftmost_32_pos : ℕ → Option ℕ
leftmost_32_pos word = leftmost_from 4 24 (word % 2 ^ 32)

unfoldable pub alloc_set_free_index : ℕ → Option ℕ
alloc_set_free_index size =
    if ltb (2 ^ alloc_minbits) size
    then Option.map (λ p. p - alloc_minbits + 1) (leftmost_32_pos (size - 1))
    else some 0

-- `ALLOC_CHUNK_MAGIC`, with the bit that marks an external chunk.
unfoldable pub external_mask : ℕ
external_mask = bit_or (0xBDEADB858E77BABA / 2 ^ 4 * 2 ^ 4) (2 ^ 3)

unfoldable pub chunk_mask : ℕ → ℕ → ℕ
chunk_mask offset value = bit_or (u64 (offset * 2 ^ 34)) (u64 (value * 2 ^ 4))

unfoldable pub chunk_is_external : ℕ → Bool
chunk_is_external mask = not (bit_and mask (2 ^ 3) == 0)

unfoldable pub chunk_get_offset : ℕ → ℕ
chunk_get_offset mask = bit_and (mask / 2 ^ 34) 0x3FFFFFFF

unfoldable pub chunk_get_value : ℕ → ℕ
chunk_get_value mask = bit_and (mask / 2 ^ 4) 0x3FFFFFFF

-- `CHUNK_GET_SIZE_FROM_FREE_LIST_IDX`
abbrev pub class_size : ℕ → ℕ
class_size fdx = 2 ^ alloc_minbits * 2 ^ fdx

pub record Block : Type 0 where
  pub addr : ℕ
  pub freeptr : ℕ
  pub endptr : ℕ

-- The context at address `set`; `mask` has the masks of the chunks at their addresses, and `owner` the
-- field `set` of the blocks at theirs; `bytes` is the rest of the memory.
pub record AllocSet : Type 0 where
  pub set : ℕ
  pub blocks : List Block
  pub free_list : List (List ℕ)
  pub next_block_size : ℕ
  pub mask : ℕ → ℕ
  pub owner : ℕ → ℕ
  pub bytes : ℕ → ℕ

unfoldable pub write_word : ℕ → ℕ → (ℕ → ℕ) → ℕ → ℕ
write_word addr value words a = if a == addr then value else words a

-- `KEEPER_ALLOC_BLOCK(set)`
abbrev pub keeper : ℕ → ℕ
keeper set = set + alloc_set_cxt_size

unfoldable pub alloc_set_memory_context_create : ℕ → ℕ → AllocSet
alloc_set_memory_context_create addr block_size =
    let size = maxalign (alloc_set_cxt_size + block_size) in
    record {
      set = addr;
      blocks =
          record {
            addr = keeper addr;
            freeptr = keeper addr + alloc_block_size;
            endptr = addr + size;
          }
          ∷ [];
      free_list = replicate alloc_freelists_num [];
      next_block_size = maxalign block_size % 2 ^ 32;
      mask = λ c. 0;
      owner = write_word (keeper addr) addr (λ a. 0);
      bytes = λ a. 0;
    }

-- A pointer, and the context after it is allocated.
abbrev pub Allocated : Type 0
Allocated = ℕ × AllocSet

-- From the head block `b`, before the blocks `bs`.
unfoldable pub alloc_set_alloc_chunk_from_block : AllocSet → Block → List Block → ℕ → Allocated
alloc_set_alloc_chunk_from_block s b bs chksize = (
  b.freeptr + alloc_chunk_size,
  record s {
    blocks = record b { freeptr = b.freeptr + (chksize + alloc_chunk_size) } ∷ bs;
    mask = write_word b.freeptr (chunk_mask (b.freeptr - b.addr) chksize) s.mask;
  },
)

-- The size of the next block, and the one after it.
unfoldable pub block_bytes : AllocSet → ℕ → ℕ
block_bytes s chksize =
    let least = chksize + alloc_block_size + alloc_chunk_size in
    if ltb s.next_block_size least then least else s.next_block_size

unfoldable pub grown_block_size : ℕ → ℕ
grown_block_size size =
    if ltb (default_max_block_size / 2) size then default_max_block_size else size * 2

unfoldable pub alloc_set_alloc_new_block : ℕ → AllocSet → ℕ → Allocated
alloc_set_alloc_new_block addr s chksize =
    alloc_set_alloc_chunk_from_block
      (record s {
        next_block_size = grown_block_size s.next_block_size;
        owner = write_word addr s.set s.owner;
      })
      (record {
        addr = addr;
        freeptr = addr + alloc_block_size;
        endptr = addr + block_bytes s chksize;
      })
      s.blocks chksize

-- Behind the head of the list.
abbrev pub insert_second : Block → List Block → List Block
insert_second b [] = b ∷ []
insert_second b (h ∷ bs) = h ∷ b ∷ bs

abbrev pub large_bytes : ℕ → ℕ
large_bytes size = maxalign (u64 (size + alloc_block_size + alloc_chunk_size))

unfoldable pub alloc_set_alloc_large : ℕ → AllocSet → ℕ → Allocated
alloc_set_alloc_large addr s size =
    let end = addr + large_bytes size in
    (
      addr + alloc_block_size + alloc_chunk_size,
      record s {
        blocks = insert_second (record { addr = addr; freeptr = end; endptr = end }) s.blocks;
        mask = write_word (addr + alloc_block_size) external_mask s.mask;
        owner = write_word addr s.set s.owner;
      },
    )

-- Where no chunk of class `fdx` is free: from the head block, or else a new one.
unfoldable pub alloc_of_block : ℕ → AllocSet → ℕ → List Block → Option Allocated
alloc_of_block addr s fdx [] = none
alloc_of_block addr s fdx (b ∷ bs) =
    let chksize = class_size fdx in
    some (
      if ltb (sub64 b.endptr b.freeptr) (chksize + alloc_chunk_size)
      then alloc_set_alloc_new_block addr s chksize
      else alloc_set_alloc_chunk_from_block s b bs chksize)

-- By the free chunks of class `fdx`.
unfoldable pub alloc_of_list : ℕ → AllocSet → ℕ → List ℕ → Option Allocated
alloc_of_list addr s fdx [] = alloc_of_block addr s fdx s.blocks
alloc_of_list addr s fdx (c ∷ cs) =
    some (c + alloc_chunk_size, record s { free_list = set s.free_list fdx cs })

unfoldable pub alloc_of_class : ℕ → AllocSet → ℕ → Option Allocated
alloc_of_class addr s fdx = alloc_of_list addr s fdx (get_or s.free_list fdx [])

unfoldable pub alloc_set_alloc : ℕ → AllocSet → ℕ → Option Allocated
alloc_set_alloc addr s size =
    if ltb alloc_chunk_limit size
    then some (alloc_set_alloc_large addr s size)
    else Option.bind (alloc_set_free_index size) (alloc_of_class addr s)

-- A block leaves the list, and goes back to `malloc`.
unfoldable pub unlink : ℕ → List Block → List Block
unlink addr [] = []
unlink addr (b ∷ bs) = if b.addr == addr then bs else b ∷ unlink addr bs

-- `CHUNK_EXTERNAL_GET_BLOCK` or `alloc_chunk_get_block`.
unfoldable pub chunk_block : ℕ → ℕ → ℕ
chunk_block chunk mask =
    if chunk_is_external mask then chunk - alloc_block_size else chunk - chunk_get_offset mask

-- The context is the one that the block of the chunk names; where that is another, `none`.
unfoldable pub alloc_set_free : AllocSet → ℕ → Option AllocSet
alloc_set_free s ptr =
    let chunk = ptr - alloc_chunk_size in
    let mask = s.mask chunk in
    let block = chunk_block chunk mask in
    if s.owner block == s.set
    then if chunk_is_external mask
      then some (record s { blocks = unlink block s.blocks })
      else Option.map
          (λ fdx. record s { free_list = set s.free_list fdx (chunk ∷ get_or s.free_list fdx []) })
          (alloc_set_free_index (chunk_get_value mask))
    else none

-- `memcpy` of `n` bytes.
unfoldable pub copy_bytes : ℕ → ℕ → ℕ → (ℕ → ℕ) → ℕ → ℕ
copy_bytes to from n bytes a =
    if leb to a && ltb a (to + n) then bytes (from + (a - to)) else bytes a

-- The block at one address is at another after `realloc`, with its fields.
unfoldable pub moved_block : ℕ → ℕ → ℕ → List Block → List Block
moved_block old addr end [] = []
moved_block old addr end (b ∷ bs) =
    if b.addr == old
    then record { addr = addr; freeptr = end; endptr = end } ∷ bs
    else b ∷ moved_block old addr end bs

-- `realloc` keeps the bytes up to the smaller of the two sizes; past the old size of a block they are
-- not specified, and no theorem is about them.
unfoldable pub alloc_set_realloc : ℕ → AllocSet → ℕ → ℕ → Option Allocated
alloc_set_realloc addr s ptr size =
    let chunk = ptr - alloc_chunk_size in
    let mask = s.mask chunk in
    let block = chunk_block chunk mask in
    if s.owner block == s.set
    then if chunk_is_external mask
      then some (
        addr + alloc_block_size + alloc_chunk_size,
        record s {
          blocks = moved_block block addr (addr + large_bytes size) s.blocks;
          mask = write_word (addr + alloc_block_size) mask s.mask;
          owner = write_word addr (s.owner block) s.owner;
          bytes = copy_bytes addr block (large_bytes size) s.bytes;
        },
      )
      else if leb size (chunk_get_value mask)
      then some (ptr, s)
      else Option.bind (alloc_set_alloc addr s size) (λ (r : Allocated).
        let copied = record r.1 { bytes = copy_bytes r.0 ptr (chunk_get_value mask) r.1.bytes } in
        Option.map (λ s'. (r.0, s')) (alloc_set_free copied ptr))
    else none

-- The loop over the blocks keeps the keeper.
unfoldable pub keep_keeper : ℕ → List Block → List Block
keep_keeper set [] = []
keep_keeper set (b ∷ bs) =
    let rest = keep_keeper set bs in
    if b.addr == keeper set then record b { freeptr = b.addr + alloc_block_size } ∷ rest else rest

unfoldable pub alloc_set_reset : AllocSet → AllocSet
alloc_set_reset s = record s {
  blocks = keep_keeper s.set s.blocks;
  free_list = replicate alloc_freelists_num [];
}
