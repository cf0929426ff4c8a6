-- ===== src/Graph/Plan/Slots.antt =====
-- The sweep of the arena planner of `src/graph.c`: whose bytes are whose, at every step.
use mathlib.Core.Path.{subst}
use tinyllama_c.Prelude.{
  ℕ, zero, suc, ◌+◌, ◌^◌, ◌≤◌, ◌<◌, ◌≡◌, refl, ap, sym, List, [], ◌∷◌, some, length, get_elem?,
  arith,
}
use tinyllama_c.Graph.Plan.{Sweep, Demand, free_of, bump_of, sweep_step, sweep, empty_sweep}
use tinyllama_c.Graph.Plan.Cover.{free_cover}
use tinyllama_c.Graph.Plan.Step.{Apart, Inside, Invariant, step-length, step-Invariant}

-- From node `i` on, a known backend and a last consumer that is not before the node.
abbrev pub EveryDemand : ℕ → List Demand → Type 0
EveryDemand i [] = Unit {0}
EveryDemand i (d ∷ ds) = ((d.backend < 3) × (i ≤ d.release)) × EveryDemand (suc i) ds

abbrev pub total_need : List Demand → ℕ
total_need [] = 0
total_need (d ∷ ds) = d.need + total_need ds

sweep-Invariant :
    (ds : List Demand) (s : Sweep)
    → EveryDemand (length s.slot) ds
    → Invariant (total_need ds) s
    → Invariant 0 (sweep ds s)
unfolding sweep
sweep-Invariant [] s h inv = inv
sweep-Invariant (d ∷ ds) s ((low, late), h) inv =
    let more = step-length (total_need ds) d s low late inv in
    sweep-Invariant ds (sweep_step d s) (subst (λ n. EveryDemand n ds) (sym more) h)
      (step-Invariant (total_need ds) d s low late inv)

no_slot {ℓ} : {A : Type ℓ} (a : A) (j : ℕ) → get_elem? [] j ≡ some a → ⊥
no_slot a j h = cc

empty_sweep-Invariant : (left : ℕ) → left < 2 ^ 64 → Invariant left empty_sweep
unfolding empty_sweep
empty_sweep-Invariant left h = record {
  free_shape = refl;
  bump_shape = refl;
  backends = tt;
  small = λ b. omega (arith, h, zeros b);
  once = λ b x. omega (arith, ap (free_cover x) (nothing b));
  room = λ b x far. omega (arith, ap (free_cover x) (nothing b));
  inside = λ j t x a covered. absurd (no_slot t j a);
  apart = λ j k t u x a c before same late. absurd (no_slot t j a);
}
  where
    zeros : (b : ℕ) → bump_of empty_sweep b ≡ 0
    zeros zero = refl
    zeros (suc zero) = refl
    zeros (suc (suc zero)) = refl
    zeros (suc (suc (suc b))) = refl

    nothing : (b : ℕ) → free_of empty_sweep b ≡ []
    nothing zero = refl
    nothing (suc zero) = refl
    nothing (suc (suc zero)) = refl
    nothing (suc (suc (suc b))) = refl

-- The sweep keeps slots apart while they are in use, and inside the arenas that it sizes.
pub sweep-Apart :
    (ds : List Demand)
    → EveryDemand 0 ds
    → total_need ds < 2 ^ 64
    → Apart (sweep ds empty_sweep).slot × Inside (sweep ds empty_sweep)
unfolding empty_sweep
sweep-Apart ds h small =
    let inv = sweep-Invariant ds empty_sweep h (empty_sweep-Invariant (total_need ds) small) in
    (inv.apart, inv.inside)
