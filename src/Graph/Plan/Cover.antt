-- ===== src/Graph/Plan/Cover.antt =====
-- How often a byte is covered by chunks and slots, in the arena planner of `src/graph.c`.
use native.Mathlib.Nat.{sub-zero}
use tinyllama_c.Prelude.{
  covers, ℕ, zero, suc, ◌+◌, ◌-◌, ◌^◌, ◌≤◌, ◌<◌, ◌≡◌, ◌⊎◌, inl, inr, refl, Bool, true, false, ◌&&◌,
  List, [], ◌∷◌, ◌++◌, ltb, leb, ◌==◌, if◌then◌else◌, length, get_or, set, take, arith, Bool-cases,
  length-set, length-take, get_or-set, ==_iff, ◌∙◌, ap,
}
use tinyllama_c.Graph.Plan.{
  Slot, Chunk, Sweep, no_chunk, free_of, reclaim_slot, reclaim_ended, reclaim, scan_chunks,
  best_chunk, swap_remove,
}

abbrev pub free_cover : ℕ → List Chunk → ℕ
free_cover x [] = 0
free_cover x (c ∷ cs) = covers c.off c.size x + free_cover x cs

abbrev pub slot_cover : ℕ → Slot → ℕ
slot_cover x t = covers t.off t.need x

-- By the slots of a backend that are in use before step `i`.
abbrev pub live_cover : ℕ → ℕ → ℕ → List Slot → ℕ
live_cover i b x [] = 0
live_cover i b x (t ∷ ts) =
    (if t.backend == b && leb i (t.release + 1) then slot_cover x t else 0) + live_cover i b x ts

-- By those that step `i` reclaims.
abbrev pub ended_cover : ℕ → ℕ → ℕ → List Slot → ℕ
ended_cover i b x [] = 0
ended_cover i b x (t ∷ ts) =
    (if t.backend == b && t.release + 1 == i then slot_cover x t else 0) + ended_cover i b x ts

pub free_cover-append :
    (x : ℕ) (cs ds : List Chunk) → free_cover x (cs ++ ds) ≡ free_cover x cs + free_cover x ds
free_cover-append x [] ds = omega arith
free_cover-append x (c ∷ cs) ds = omega (arith, free_cover-append x cs ds)

pub live_cover-append :
    (i b x : ℕ) (ts us : List Slot)
    → live_cover i b x (ts ++ us) ≡ live_cover i b x ts + live_cover i b x us
live_cover-append i b x [] us = omega arith
live_cover-append i b x (t ∷ ts) us = omega (arith, live_cover-append i b x ts us)

split_one :
    (i r k : ℕ) (same : Bool)
    → (if same && leb i (r + 1) then k else 0)
      ≡ (if same && r + 1 == i then k else 0) + (if same && leb (suc i) (r + 1) then k else 0)
split_one i r k true = ground arith
split_one i r k false = omega arith

pub live_cover-split :
    (i b x : ℕ) (ts : List Slot)
    → live_cover i b x ts ≡ ended_cover i b x ts + live_cover (suc i) b x ts
live_cover-split i b x [] = omega arith
live_cover-split i b x (t ∷ ts) =
    omega
      (arith, split_one i t.release (slot_cover x t) (t.backend == b), live_cover-split i b x ts)

free_cover-set :
    (x : ℕ) (cs : List Chunk) (k : ℕ) (c : Chunk)
    → k < length cs
    → free_cover x (set cs k c) + free_cover x (get_or cs k no_chunk ∷ [])
      ≡ free_cover x cs + covers c.off c.size x
free_cover-set x [] k c h = absurd (omega arith)
free_cover-set x (d ∷ cs) zero c h = omega arith
free_cover-set x (d ∷ cs) (suc k) c h = omega (arith, free_cover-set x cs k c (omega arith))

free_cover-take :
    (x n : ℕ) (cs : List Chunk)
    → length cs ≡ suc n
    → free_cover x (take n cs) + free_cover x (get_or cs n no_chunk ∷ []) ≡ free_cover x cs
free_cover-take x n [] h = absurd (omega arith)
free_cover-take x zero (c ∷ []) h = omega arith
free_cover-take x zero (c ∷ d ∷ cs) h = absurd (omega arith)
free_cover-take x (suc n) (c ∷ cs) h = omega (arith, free_cover-take x n cs (omega arith))

last-set :
    (cs : List Chunk) (k n : ℕ)
    → length cs ≡ suc n
    → get_or (set cs k (get_or cs n no_chunk)) n no_chunk ≡ get_or cs n no_chunk
last-set [] k n h = absurd (omega arith)
last-set (c ∷ cs) zero zero h = refl
last-set (c ∷ cs) zero (suc n) h = refl
last-set (c ∷ cs) (suc k) zero h = refl
last-set (c ∷ cs) (suc k) (suc n) h = last-set cs k n (omega arith)

-- A chunk that is removed leaves the others.
pub free_cover-swap_remove :
    (x : ℕ) (cs : List Chunk) (k : ℕ)
    → k < length cs
    → free_cover x (swap_remove cs k) + free_cover x (get_or cs k no_chunk ∷ []) ≡ free_cover x cs
unfolding swap_remove
free_cover-swap_remove x cs k h =
    let n = length cs - 1 in
    let last = get_or cs n no_chunk in
    let e : length cs ≡ suc n = omega arith in
    let e' : length (set cs k last) ≡ suc n = length-set cs k last ∙ e in
    omega (
      arith,
      free_cover-set x cs k last h,
      free_cover-take x n (set cs k last) e',
      ap (λ c. free_cover x (c ∷ [])) (last-set cs k n e),
    )

pub length-swap_remove :
    (cs : List Chunk) (k : ℕ) → k < length cs → length (swap_remove cs k) + 1 ≡ length cs
unfolding swap_remove
length-swap_remove cs k h =
    let last = get_or cs (length cs - 1) no_chunk in
    omega (arith, length-take (length cs - 1) (set cs k last), length-set cs k last)

-- The number `r` is that of a chunk from number `f` on that holds what is asked for.
abbrev Fits : ℕ → ℕ → List Chunk → ℕ → Type 0
Fits need f cs r = (f ≤ r) × (r < f + length cs) × (need ≤ (get_or cs (r - f) no_chunk).size)

Fits-further :
    (need f : ℕ) (c : Chunk) (cs : List Chunk) (r : ℕ)
    → Fits need (f + 1) cs r
    → Fits need f (c ∷ cs) r
Fits-further need f c cs r (low, high, fits) =
    let e : r - f ≡ suc (r - (f + 1)) = omega arith in (omega arith, omega arith, rw e fits)

Fits-first :
    (need f : ℕ) (c : Chunk) (cs : List Chunk) (r : ℕ)
    → need ≤ c.size
    → r ≡ f
    → Fits need f (c ∷ cs) r
Fits-first need f c cs r fits same =
    let e : r - f ≡ 0 = omega arith in (omega arith, omega arith, rw e fits)

scan_chunks-Fits :
    (need f : ℕ) (cs : List Chunk) (best best_sz : ℕ)
    → (scan_chunks need f cs best best_sz ≡ best)
      ⊎ Fits need f cs (scan_chunks need f cs best best_sz)
unfolding scan_chunks
scan_chunks-Fits need f [] best best_sz = inl refl
scan_chunks-Fits need f (c ∷ cs) best best_sz =
    elim (Bool-cases (leb need c.size && ltb c.size best_sz)) [
      | inl yes' ↦ rw yes' (
          inr (elim (scan_chunks-Fits need (f + 1) cs f c.size) [
            | inl same ↦ Fits-first need f c cs _ (ground (arith, yes')) same
            | inr later ↦ Fits-further need f c cs _ later
          ]))
      | inr no' ↦ rw no' (elim (scan_chunks-Fits need (f + 1) cs best best_sz) [
        | inl same ↦ inl same
        | inr later ↦ inr (Fits-further need f c cs _ later)
      ])
    ]

-- A chunk that is found holds what is asked for.
pub best_chunk-fits :
    (need : ℕ) (cs : List Chunk)
    → best_chunk need cs < length cs
    → need ≤ (get_or cs (best_chunk need cs) no_chunk).size
unfolding best_chunk
best_chunk-fits need cs h = elim (scan_chunks-Fits need 0 cs (length cs) (2 ^ 64 - 1)) [
  | inl same ↦ absurd (omega (arith, same))
  | inr (low, high, fits) ↦ rw (sub-zero (best_chunk need cs)) at fits
]

module _ (s : Sweep) (t : Slot) (h : t.backend < length s.free) where
  reclaim_slot-free :
      (b : ℕ)
      → free_of (reclaim_slot t s) b ≡ (
          if t.backend == b
          then free_of s t.backend ++ record { off = t.off; size = t.need } ∷ []
          else free_of s b)
  unfolding reclaim_slot
  reclaim_slot-free b = get_or-set s.free t.backend b _ [] h

  reclaim_slot-cover :
      (b x : ℕ)
      → free_cover x (free_of (reclaim_slot t s) b)
        ≡ free_cover x (free_of s b) + (if t.backend == b then slot_cover x t else 0)
  reclaim_slot-cover b x = elim (Bool-cases (t.backend == b)) [
    | inl same ↦
        let e : t.backend ≡ b = (==_iff t.backend b).0 same in
        ap (free_cover x) (rw same at (reclaim_slot-free b))
        ∙ rw (same, e) (free_cover-append x (free_of s b) _ ∙ omega arith)
    | inr other ↦ rw other (ap (free_cover x) (rw other at (reclaim_slot-free b)) ∙ omega arith)
  ]

abbrev pub EveryBackend : List Slot → Type 0
EveryBackend [] = Unit {0}
EveryBackend (t ∷ ts) = (t.backend < 3) × EveryBackend ts

-- What a step leaves alone.
pub record Reclaims (s s' : Sweep) : Type 0 where
  pub slot : s'.slot ≡ s.slot
  pub bump : s'.bump ≡ s.bump
  pub free : length s'.free ≡ length s.free

reclaim_ended-Reclaims : (i : ℕ) (t : Slot) (s : Sweep) → Reclaims s (reclaim_ended i t s)
unfolding reclaim_ended reclaim_slot
reclaim_ended-Reclaims i t s = elim (Bool-cases (t.release + 1 == i)) [
  | inl ends ↦ rw ends (record { slot = refl; bump = refl; free = length-set s.free t.backend _ })
  | inr stays ↦ rw stays (record { slot = refl; bump = refl; free = refl })
]

reclaim_ended-cover :
    (i : ℕ) (t : Slot) (s : Sweep) (b x : ℕ)
    → t.backend < length s.free
    → free_cover x (free_of (reclaim_ended i t s) b)
      ≡ free_cover x (free_of s b)
        + (if t.backend == b && t.release + 1 == i then slot_cover x t else 0)
unfolding reclaim_ended
reclaim_ended-cover i t s b x h = elim (Bool-cases (t.release + 1 == i)) [
  | inl ends ↦ rw ends (reclaim_slot-cover s t h b x ∙ both (t.backend == b) _ _)
  | inr stays ↦ rw stays (none_ended (t.backend == b) _ _)
]
  where
    both : (c : Bool) (n k : ℕ) → n + (if c then k else 0) ≡ n + (if c && true then k else 0)
    both true n k = refl
    both false n k = refl

    none_ended : (c : Bool) (n k : ℕ) → n ≡ n + (if c && false then k else 0)
    none_ended true n k = omega arith
    none_ended false n k = omega arith

pub reclaim-Reclaims : (i : ℕ) (ts : List Slot) (s : Sweep) → Reclaims s (reclaim i ts s)
unfolding reclaim
reclaim-Reclaims i [] s = record { slot = refl; bump = refl; free = refl }
reclaim-Reclaims i (t ∷ ts) s =
    let one = reclaim_ended-Reclaims i t s in
    let rest = reclaim-Reclaims i ts (reclaim_ended i t s) in
    record { slot = rest.slot ∙ one.slot; bump = rest.bump ∙ one.bump; free = rest.free ∙ one.free }

-- Reclaiming moves what has ended to the free chunks.
pub reclaim-cover :
    (i : ℕ) (ts : List Slot) (s : Sweep) (b x : ℕ)
    → EveryBackend ts
    → length s.free ≡ 3
    → free_cover x (free_of (reclaim i ts s) b) ≡ free_cover x (free_of s b) + ended_cover i b x ts
unfolding reclaim
reclaim-cover i [] s b x h shape = omega arith
reclaim-cover i (t ∷ ts) s b x (low, h) shape =
    let shape' = (reclaim_ended-Reclaims i t s).free ∙ shape in
    omega (
      arith,
      reclaim-cover i ts (reclaim_ended i t s) b x h shape',
      reclaim_ended-cover i t s b x (omega (arith, shape)),
    )
