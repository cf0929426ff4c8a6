-- ===== src/Graph/Plan/Place.antt =====
-- One placement of the arena planner of `src/graph.c`: a chunk is reused, or the arena grows.
use tinyllama_c.Prelude.{
  covers, ℕ, ◌+◌, ◌^◌, ◌≤◌, ◌<◌, ◌≡◌, refl, ◌∙◌, ap, inl, inr, [], ◌∷◌, ◌++◌, ltb, ◌==◌, ==_iff,
  if◌then◌else◌, length, get_or, set, arith, Bool-cases, length-set, get_or-set,
}
use tinyllama_c.Graph.Plan.{
  Slot, Chunk, Sweep, Demand, no_chunk, free_of, bump_of, best_chunk, swap_remove, u64, place,
}
use tinyllama_c.Graph.Plan.Cover.{free_cover, slot_cover, free_cover-swap_remove, best_chunk-fits}

-- The slot of a demand at an offset.
abbrev pub slot_at : Demand → ℕ → Slot
slot_at d off = record { backend = d.backend; need = d.need; release = d.release; off = off }

abbrev pub mine : Slot → ℕ → ℕ → ℕ
mine t b x = if t.backend == b then slot_cover x t else 0

-- A placement takes bytes that were free, or new bytes of the arena.
pub record Places (d : Demand) (s s' : Sweep) : Type 0 where
  pub off : ℕ
  pub slot : s'.slot ≡ s.slot ++ slot_at d off ∷ []
  pub free_shape : length s'.free ≡ 3
  pub bump_shape : length s'.bump ≡ 3
  pub grows : (b : ℕ) → bump_of s b ≤ bump_of s' b
  pub bounded : (b : ℕ) → bump_of s' b ≤ bump_of s b + d.need
  pub below :
      (b x : ℕ)
      → x < bump_of s b
      → free_cover x (free_of s' b) + mine (slot_at d off) b x ≤ free_cover x (free_of s b)
  pub above :
      (b x : ℕ)
      → bump_of s b ≤ x
      → free_cover x (free_of s' b) + mine (slot_at d off) b x
        ≤ free_cover x (free_of s b) + (if ltb x (bump_of s' b) then 1 else 0)

module _ (d : Demand) (s : Sweep) (free_shape : length s.free ≡ 3) (bump_shape : length s.bump ≡ 3)
    (low : d.backend < 3) where
  abbrev best : ℕ
  best = best_chunk d.need (free_of s d.backend)

  abbrev chunk : Chunk
  chunk = get_or (free_of s d.backend) best no_chunk

  abbrev reused : Sweep
  reused = record s {
    slot = s.slot ++ slot_at d chunk.off ∷ [];
    free = set s.free d.backend (swap_remove (free_of s d.backend) best);
  }

  reused-free :
      (b : ℕ)
      → free_of reused b
        ≡ (if d.backend == b then swap_remove (free_of s d.backend) best else free_of s b)
  reused-free b = get_or-set s.free d.backend b _ [] (omega (arith, low, free_shape))

  reused-cover :
      best < length (free_of s d.backend)
      → (b x : ℕ)
      → free_cover x (free_of reused b) + mine (slot_at d chunk.off) b x
        ≤ free_cover x (free_of s b)
  reused-cover h b x = elim (Bool-cases (d.backend == b)) [
    | inl same ↦
        let e : d.backend ≡ b = (==_iff d.backend b).0 same in
        let left = rw same at (reused-free b) in
        let removed = free_cover-swap_remove x (free_of s d.backend) best h in
        let fits = best_chunk-fits d.need (free_of s d.backend) h in
        let smaller : slot_cover x (slot_at d chunk.off) ≤ covers chunk.off chunk.size x =
          ground (arith, fits) in
        let here : free_cover x (free_of s d.backend) ≡ free_cover x (free_of s b) =
          ap (λ a. free_cover x (free_of s a)) e in
        rw same (omega (arith, ap (free_cover x) left, removed, smaller, here))
    | inr other ↦ rw other (omega (arith, ap (free_cover x) (rw other at (reused-free b))))
  ]

  reused-Places : best < length (free_of s d.backend) → Places d s reused
  reused-Places h = record {
    off = chunk.off;
    slot = refl;
    free_shape = length-set s.free d.backend _ ∙ free_shape;
    bump_shape = bump_shape;
    grows = λ b. omega arith;
    bounded = λ b. omega arith;
    below = λ b x lt. reused-cover h b x;
    above = λ b x le. omega (arith, reused-cover h b x);
  }

  abbrev grown : Sweep
  grown = record s {
    slot = s.slot ++ slot_at d (bump_of s d.backend) ∷ [];
    bump = set s.bump d.backend (u64 (bump_of s d.backend + d.need));
  }

  module _ (small : bump_of s d.backend + d.need < 2 ^ 64) where
    grown-bump :
        (b : ℕ) → bump_of grown b ≡ (if d.backend == b then bump_of s b + d.need else bump_of s b)
    grown-bump b =
        let written =
          get_or-set s.bump d.backend b (u64 (bump_of s d.backend + d.need)) 0
            (omega (arith, low, bump_shape)) in
        elim (Bool-cases (d.backend == b)) [
          | inl same ↦
              let e : d.backend ≡ b = (==_iff d.backend b).0 same in
              rw same (omega (arith, rw same at written, ap (bump_of s) e))
          | inr other ↦ rw other (rw other at written)
        ]

    grown-Places : Places d s grown
    grown-Places = record {
      off = bump_of s d.backend;
      slot = refl;
      free_shape = free_shape;
      bump_shape = length-set s.bump d.backend _ ∙ bump_shape;
      grows = λ b. ground (arith, grown-bump b);
      bounded = λ b. ground (arith, grown-bump b);
      below = λ b x lt. grown-below b x lt;
      above = λ b x le. grown-above b x le;
    }
      where
        grown-below :
            (b x : ℕ)
            → x < bump_of s b
            → free_cover x (free_of s b) + mine (slot_at d (bump_of s d.backend)) b x
              ≤ free_cover x (free_of s b)
        grown-below b x lt = elim (Bool-cases (d.backend == b)) [
          | inl same ↦
              let here = ap (bump_of s) ((==_iff d.backend b).0 same) in
              rw same (ground (arith, here))
          | inr other ↦ rw other (omega arith)
        ]

        grown-above :
            (b x : ℕ)
            → bump_of s b ≤ x
            → free_cover x (free_of s b) + mine (slot_at d (bump_of s d.backend)) b x
              ≤ free_cover x (free_of s b) + (if ltb x (bump_of grown b) then 1 else 0)
        grown-above b x le = elim (Bool-cases (d.backend == b)) [
          | inl same ↦
              let here = ap (bump_of s) ((==_iff d.backend b).0 same) in
              let room = rw same at (grown-bump b) in rw same (ground (arith, here, room))
          | inr other ↦ rw other (ground arith)
        ]

-- Whether a chunk fits or not.
pub place-Places :
    (d : Demand) (s : Sweep)
    → length s.free ≡ 3
    → length s.bump ≡ 3
    → d.backend < 3
    → bump_of s d.backend + d.need < 2 ^ 64
    → Places d s (place d.backend d.need d.release s)
unfolding place
place-Places d s free_shape bump_shape low small =
    let best = best_chunk d.need (free_of s d.backend) in
    elim (Bool-cases (ltb best (length (free_of s d.backend)))) [
      | inl fits ↦ rw fits (reused-Places d s free_shape bump_shape low (ground (arith, fits)))
      | inr full ↦ rw full (grown-Places d s free_shape bump_shape low small)
    ]
