-- ===== src/Alloc/Known.antt =====
-- What is known of a memory context of `src/asctx.c` and of what it gave out.
use native.Mathlib.Nat.{one-le-pow}
use tinyllama_c.Prelude.{
  covers, ℕ, zero, suc, ◌+◌, ◌-◌, ◌≤◌, ◌^◌, ◌≡◌, ◌≢◌, refl, ◌∙◌, ap, inl, inr, true, false, List,
  [], ◌∷◌, some, ◌==◌, length, get_or, get_elem?, set, arith, Bool-cases,
}
use tinyllama_c.Alloc.{
  Block, AllocSet, alloc_block_size, alloc_chunk_size, class_size, write_word, chunk_is_external,
  chunk_get_value, alloc_set_free_index, leftmost_32_pos, leftmost_from,
}
use tinyllama_c.Alloc.Homes.{Homes}
use tinyllama_c.Alloc.Regions.{
  Given, class_cover, classes_cover, total, blocks_at, blocks_at-le, blocks_cover, EveryBlock,
}

-- A free chunk of class `f` has the mask of one.
abbrev pub EveryChunk : (ℕ → ℕ) → ℕ → List ℕ → Type 0
EveryChunk mask f [] = Unit {0}
EveryChunk mask f (c ∷ cs) =
    ((chunk_is_external (mask c) ≡ false) × (chunk_get_value (mask c) ≡ class_size f))
    × EveryChunk mask f cs

abbrev pub EveryClass : (ℕ → ℕ) → ℕ → List (List ℕ) → Type 0
EveryClass mask f [] = Unit {0}
EveryClass mask f (cs ∷ rest) = EveryChunk mask f cs × EveryClass mask (suc f) rest

pub get-EveryChunk :
    (mask : ℕ → ℕ) (f k : ℕ) (lists : List (List ℕ))
    → EveryClass mask f lists
    → EveryChunk mask (f + k) (get_or lists k [])
get-EveryChunk mask f k [] h = tt
get-EveryChunk mask f zero (cs ∷ rest) (hc, h) = let e : f + 0 ≡ f = omega arith in rw e hc
get-EveryChunk mask f (suc k) (cs ∷ rest) (hc, h) =
    let e : f + suc k ≡ suc f + k = omega arith in rw e (get-EveryChunk mask (suc f) k rest h)

pub set-EveryClass :
    (mask : ℕ → ℕ) (f k : ℕ) (lists : List (List ℕ)) (cs : List ℕ)
    → EveryClass mask f lists
    → EveryChunk mask (f + k) cs
    → EveryClass mask f (set lists k cs)
set-EveryClass mask f k [] cs h hk = tt
set-EveryClass mask f zero (ds ∷ rest) cs (hd, h) hk =
    let e : f + 0 ≡ f = omega arith in (rw e at hk, h)
set-EveryClass mask f (suc k) (ds ∷ rest) cs (hd, h) hk =
    let e : f + suc k ≡ suc f + k = omega arith in
    (hd, set-EveryClass mask (suc f) k rest cs h (rw e at hk))

-- An external chunk that was given out has its block behind the head of the list; any other has the
-- bytes of a class.
pub data Entry (mask : ℕ → ℕ) (tail : List Block) (e : Given) : Type 0 where
  of_class :
      (f : ℕ)
      → f ≤ 10
      → e.external ≡ false
      → e.len ≡ class_size f + alloc_chunk_size
      → chunk_is_external (mask e.chunk) ≡ false
      → chunk_get_value (mask e.chunk) ≡ class_size f
      → Entry mask tail e
  large :
      e.external ≡ true
      → alloc_chunk_size ≤ e.len
      → chunk_is_external (mask e.chunk) ≡ true
      → alloc_block_size ≤ e.chunk
      → 1 ≤ blocks_at (e.chunk - alloc_block_size) tail
      → Entry mask tail e

-- The block at the head is one of the context, and its chunks are less than 2^30 bytes into it.
pub record Near (owner : ℕ → ℕ) (set : ℕ) (b : Block) : Type 0 where
  pub owned : owner b.addr ≡ set
  pub low : b.addr ≤ b.freeptr
  pub high : b.endptr ≤ b.addr + 2 ^ 30

pub record Invariant (s : AllocSet) (es : List Given) : Type 0 where
  pub head : Block
  pub tail : List Block
  pub split : s.blocks ≡ head ∷ tail
  pub shape : length s.free_list ≡ 11
  pub blocks : EveryBlock s.blocks
  pub free : EveryClass s.mask 0 s.free_list
  pub entries : (j : ℕ) (e : Given) → get_elem? es j ≡ some e → Entry s.mask tail e
  pub once : (x : ℕ) → total s es x ≤ 1
  pub homes : Homes s.mask s.owner s.set
  pub near : Near s.owner s.set head
  pub next : s.next_block_size ≤ 2 ^ 30

pub class_size-pos : (f : ℕ) → 8 ≤ class_size f
class_size-pos f = omega (arith, one-le-pow f 2 (omega arith))

-- The eleven classes have their own index.
pub index_of_class : (f : ℕ) → f ≤ 10 → alloc_set_free_index (class_size f) ≡ some f
unfolding alloc_set_free_index leftmost_32_pos leftmost_from
index_of_class zero h = refl
index_of_class (suc zero) h = refl
index_of_class (suc (suc zero)) h = refl
index_of_class (suc (suc (suc zero))) h = refl
index_of_class (suc (suc (suc (suc zero)))) h = refl
index_of_class (suc (suc (suc (suc (suc zero))))) h = refl
index_of_class (suc (suc (suc (suc (suc (suc zero)))))) h = refl
index_of_class (suc (suc (suc (suc (suc (suc (suc zero))))))) h = refl
index_of_class (suc (suc (suc (suc (suc (suc (suc (suc zero)))))))) h = refl
index_of_class (suc (suc (suc (suc (suc (suc (suc (suc (suc zero))))))))) h = refl
index_of_class (suc (suc (suc (suc (suc (suc (suc (suc (suc (suc zero)))))))))) h = refl
index_of_class (suc (suc (suc (suc (suc (suc (suc (suc (suc (suc (suc n))))))))))) h =
    absurd (omega arith)

pub Entry-size : {mask : ℕ → ℕ} {tail : List Block} {e : Given} → Entry mask tail e → 16 ≤ e.len
Entry-size (of_class f known ext len flag value) = omega (arith, len)
Entry-size (large ext len flag base linked) = len

-- Writing the mask of a chunk that is not taken changes none of the others.
module _ (mask : ℕ → ℕ) (n v : ℕ) where
  write_ne : (c : ℕ) → c ≢ n → write_word n v mask c ≡ mask c
  unfolding write_word
  write_ne c h = ground (arith, h)

  pub write_self : write_word n v mask n ≡ v
  unfolding write_word
  write_self = ground arith

  write-EveryChunk :
      (f : ℕ) (cs : List ℕ)
      → class_cover f n cs ≡ 0
      → EveryChunk mask f cs
      → EveryChunk (write_word n v mask) f cs
  write-EveryChunk f [] out h = tt
  write-EveryChunk f (c ∷ cs) out ((flag, value), h) =
      let apart : c ≢ n = λ e. not_taken f c e (omega (arith, out)) in
      let same = write_ne c apart in
      (
        (ap chunk_is_external same ∙ flag, ap chunk_get_value same ∙ value),
        write-EveryChunk f cs (omega (arith, out)) h,
      )
    where
      not_taken : (f c : ℕ) → c ≡ n → covers c (class_size f + alloc_chunk_size) n ≡ 0 → ⊥
      not_taken f c e out = ground (arith, e, out, class_size-pos f)

  pub write-EveryClass :
      (f : ℕ) (lists : List (List ℕ))
      → classes_cover f n lists ≡ 0
      → EveryClass mask f lists
      → EveryClass (write_word n v mask) f lists
  write-EveryClass f [] out h = tt
  write-EveryClass f (cs ∷ rest) out (hc, h) = (
    write-EveryChunk f cs (omega (arith, out)) hc,
    write-EveryClass (suc f) rest (omega (arith, out)) h,
  )

  pub write-Entry :
      (tail : List Block) (e : Given)
      → covers e.chunk e.len n ≡ 0
      → Entry mask tail e
      → Entry (write_word n v mask) tail e
  write-Entry tail e out entry =
      let big = Entry-size entry in
      let apart : e.chunk ≢ n = λ same. ground (arith, same, out, big) in
      let same = write_ne e.chunk apart in kept same entry
    where
      kept :
          write_word n v mask e.chunk ≡ mask e.chunk
          → Entry mask tail e
          → Entry (write_word n v mask) tail e
      kept same (of_class f known ext len flag value) =
          of_class f known ext len (ap chunk_is_external same ∙ flag)
            (ap chunk_get_value same ∙ value)
      kept same (large ext len flag base linked) =
          large ext len (ap chunk_is_external same ∙ flag) base linked

-- More blocks behind the head.
pub more-Entry :
    {mask : ℕ → ℕ} {tail tail' : List Block} {e : Given}
    → ((a : ℕ) → blocks_at a tail ≤ blocks_at a tail')
    → Entry mask tail e
    → Entry mask tail' e
more-Entry more (of_class f known ext len flag value) = of_class f known ext len flag value
more-Entry more (large ext len flag base linked) =
    large ext len flag base (omega (arith, more _, linked))

-- A block behind the head is not the head.
pub not_head :
    {s : AllocSet} {es : List Given} (inv : Invariant s es) (a : ℕ)
    → 1 ≤ blocks_at a inv.tail
    → (inv.head.addr == a) ≡ false
not_head inv a linked = elim (Bool-cases (inv.head.addr == a)) [
  | inl here ↦ absurd (
      ground
        (arith, here, linked, blocks_at-le a inv.tail, inv.once a, ap (blocks_cover a) inv.split))
  | inr other ↦ other
]

-- Chunks that do not share their first byte have blocks at different addresses.
pub other_base :
    (e d : Given)
    → alloc_chunk_size ≤ e.len
    → alloc_block_size ≤ e.chunk
    → alloc_chunk_size ≤ d.len
    → alloc_block_size ≤ d.chunk
    → covers e.chunk e.len e.chunk + covers d.chunk d.len e.chunk ≤ 1
    → e.chunk - alloc_block_size ≢ d.chunk - alloc_block_size
other_base e d len base dlen dbase apart same =
    let together : e.chunk ≡ d.chunk = omega (arith, same, base, dbase) in
    ground (arith, together, apart, len, dlen)
