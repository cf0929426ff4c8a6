-- ===== src/Alloc/Regions.antt =====
-- How often a byte is taken, by the blocks and chunks of `src/asctx.c`.
use mathlib.Core.Option
use tinyllama_c.Prelude.{
  covers, ℕ, zero, suc, ◌+◌, ◌-◌, ◌≤◌, ◌<◌, ◌≡◌, ◌≢◌, refl, ap, inl, inr, Bool, List, [], ◌∷◌, some,
  ◌==◌, if◌then◌else◌, length, get_or, get_elem?, set, arith, Bool-cases, ◌^◌,
}
use tinyllama_c.Alloc.{Block, AllocSet, alloc_block_size, alloc_chunk_size, class_size, unlink}

-- What was given out: the chunk, its bytes with its header, and whether it is external.
pub record Given : Type 0 where
  pub chunk : ℕ
  pub len : ℕ
  pub external : Bool

abbrev pub given_cover : ℕ → List Given → ℕ
given_cover x [] = 0
given_cover x (e ∷ es) = covers e.chunk e.len x + given_cover x es

-- By the free chunks of one class, and of the classes from `f` on.
abbrev pub class_cover : ℕ → ℕ → List ℕ → ℕ
class_cover f x [] = 0
class_cover f x (c ∷ cs) = covers c (class_size f + alloc_chunk_size) x + class_cover f x cs

abbrev pub classes_cover : ℕ → ℕ → List (List ℕ) → ℕ
classes_cover f x [] = 0
classes_cover f x (cs ∷ rest) = class_cover f x cs + classes_cover (suc f) x rest

-- By the header of a block, and by what is free at its end.
abbrev pub block_cover : ℕ → Block → ℕ
block_cover x b = covers b.addr alloc_block_size x + covers b.freeptr (b.endptr - b.freeptr) x

abbrev pub blocks_cover : ℕ → List Block → ℕ
blocks_cover x [] = 0
blocks_cover x (b ∷ bs) = block_cover x b + blocks_cover x bs

abbrev pub total : AllocSet → List Given → ℕ → ℕ
total s es x = given_cover x es + classes_cover 0 x s.free_list + blocks_cover x s.blocks

-- How many blocks are at an address.
abbrev pub blocks_at : ℕ → List Block → ℕ
blocks_at a [] = 0
blocks_at a (b ∷ bs) = (if b.addr == a then 1 else 0) + blocks_at a bs

pub blocks_at-le : (a : ℕ) (bs : List Block) → blocks_at a bs ≤ blocks_cover a bs
blocks_at-le a [] = omega arith
blocks_at-le a (b ∷ bs) = ground (arith, blocks_at-le a bs)

pub classes_cover-set :
    (x f k : ℕ) (lists : List (List ℕ)) (cs : List ℕ)
    → k < length lists
    → classes_cover f x (set lists k cs) + class_cover (f + k) x (get_or lists k [])
      ≡ classes_cover f x lists + class_cover (f + k) x cs
classes_cover-set x f k [] cs h = absurd (omega arith)
classes_cover-set x f zero (l ∷ lists) cs h = let e : f + 0 ≡ f = omega arith in rw e (omega arith)
classes_cover-set x f (suc k) (l ∷ lists) cs h =
    let e : f + suc k ≡ suc f + k = omega arith in
    rw e (omega (arith, classes_cover-set x (suc f) k lists cs (omega arith)))

pub given-le :
    (x : ℕ) (es : List Given) (j : ℕ) (e : Given)
    → get_elem? es j ≡ some e
    → covers e.chunk e.len x ≤ given_cover x es
given-le x [] j e h = absurd (cc)
given-le x (d ∷ es) zero e h =
    let same = Option.some-injective _ _ h in
    omega (arith, ap (λ (w : Given). covers w.chunk w.len x) same)
given-le x (d ∷ es) (suc j) e h = omega (arith, given-le x es j e h)

-- The list without entry `j`.
abbrev pub without : ℕ → List Given → List Given
without j [] = []
without zero (e ∷ es) = es
without (suc j) (e ∷ es) = e ∷ without j es

pub given_cover-without :
    (x : ℕ) (es : List Given) (j : ℕ) (e : Given)
    → get_elem? es j ≡ some e
    → covers e.chunk e.len x + given_cover x (without j es) ≡ given_cover x es
given_cover-without x [] j e h = absurd (cc)
given_cover-without x (d ∷ es) zero e h =
    let same = Option.some-injective _ _ h in
    omega (arith, ap (λ (w : Given). covers w.chunk w.len x) same)
given_cover-without x (d ∷ es) (suc j) e h = omega (arith, given_cover-without x es j e h)

-- An entry that stays shares no byte with the one that goes.
pub get_elem?-without :
    (es : List Given) (j i : ℕ) (e d : Given)
    → get_elem? es j ≡ some e
    → get_elem? (without j es) i ≡ some d
    → (k : ℕ) × (get_elem? es k ≡ some d)
      × ((x : ℕ) → covers e.chunk e.len x + covers d.chunk d.len x ≤ given_cover x es)
get_elem?-without [] j i e d h g = absurd (cc)
get_elem?-without (y ∷ es) zero i e d h g =
    let same = Option.some-injective _ _ h in
    (
      suc i,
      g,
      λ x. omega (arith, ap (λ (w : Given). covers w.chunk w.len x) same, given-le x es i d g),
    )
get_elem?-without (y ∷ es) (suc j) zero e d h g =
    let same = Option.some-injective _ _ g in
    (
      zero,
      g,
      λ x. omega (arith, ap (λ (w : Given). covers w.chunk w.len x) same, given-le x es j e h),
    )
get_elem?-without (y ∷ es) (suc j) (suc i) e d h g =
    let (k, at_k, apart) = get_elem?-without es j i e d h g in
    (suc k, at_k, λ x. omega (arith, apart x))

-- What unlinking a block leaves.
pub unlink-cover : (x a : ℕ) (bs : List Block) → blocks_cover x (unlink a bs) ≤ blocks_cover x bs
unfolding unlink
unlink-cover x a [] = omega arith
unlink-cover x a (b ∷ bs) = elim (Bool-cases (b.addr == a)) [
  | inl here ↦ rw here (omega arith)
  | inr other ↦ rw other (omega (arith, unlink-cover x a bs))
]

pub unlink-at : (a a' : ℕ) (bs : List Block) → a ≢ a' → blocks_at a' (unlink a bs) ≡ blocks_at a' bs
unfolding unlink
unlink-at a a' [] h = refl
unlink-at a a' (b ∷ bs) h = elim (Bool-cases (b.addr == a)) [
  | inl here ↦ rw here (ground (arith, here))
  | inr other ↦ rw other (omega (arith, unlink-at a a' bs h))
]

-- Blocks are well formed, and below 2^64.
abbrev pub EveryBlock : List Block → Type 0
EveryBlock [] = Unit {0}
EveryBlock (b ∷ bs) = ((b.freeptr ≤ b.endptr) × (b.endptr < 2 ^ 64)) × EveryBlock bs

pub unlink-EveryBlock : (a : ℕ) (bs : List Block) → EveryBlock bs → EveryBlock (unlink a bs)
unfolding unlink
unlink-EveryBlock a [] h = tt
unlink-EveryBlock a (b ∷ bs) (hb, h) = elim (Bool-cases (b.addr == a)) [
  | inl here ↦ rw here h
  | inr other ↦ rw other (hb, unlink-EveryBlock a bs h)
]
