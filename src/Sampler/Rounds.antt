-- ===== src/Sampler/Rounds.antt =====
-- The sifts of `src/sampler.c` have rounds enough: one more changes nothing.
use tinyllama_c.Prelude.{
  ℕ, zero, suc, ◌+◌, ◌-◌, ◌/◌, ◌^◌, ◌≤◌, ◌<◌, ◌≡◌, refl, inl, inr, false, ◌||◌, List, ◌==◌, arith,
  Bool-cases,
}
use tinyllama_c.Sampler.{Float, ProbIdx, prob_at, swap, sift_up, least_child, sift_down}
use tinyllama_c.Sampler.Heap.{least_child-lt}

module _ {ℓ} {F : Type ℓ} (A : Float F) where
  -- A sift up from entry `c` takes `c` rounds at most.
  pub sift_up_enough :
      (f c : ℕ) (heap : List (ProbIdx F)) → c ≤ f → sift_up A (suc f) c heap ≡ sift_up A f c heap
  unfolding sift_up
  sift_up_enough zero c heap h = let e : c ≡ 0 = omega arith in rw e refl
  sift_up_enough (suc f) c heap h =
      let p = (c - 1) / 2 in
      elim (Bool-cases (c == 0 || A.le (prob_at A heap p) (prob_at A heap c))) [
        | inl stop ↦ rw stop refl
        | inr on ↦ rw on (sift_up_enough f p (swap A p c heap) (ground (arith, on, h)))
      ]

  further :
      (capacity p : ℕ) (heap : List (ProbIdx F))
      → p < capacity
      → capacity < 2 ^ 31
      → (least_child A capacity p heap == p) ≡ false
      → p < least_child A capacity p heap
  unfolding least_child
  further capacity p heap h small moved = ground (arith, h, small, moved)

  -- A sift down from entry `p` of fewer than 2^31 takes a round for each entry from there at most.
  pub sift_down_enough :
      (f capacity p : ℕ) (heap : List (ProbIdx F))
      → p < capacity
      → capacity < 2 ^ 31
      → capacity ≤ p + f
      → sift_down A (suc f) capacity p heap ≡ sift_down A f capacity p heap
  unfolding sift_down
  sift_down_enough zero capacity p heap h small enough = absurd (omega arith)
  sift_down_enough (suc f) capacity p heap h small enough =
      let m = least_child A capacity p heap in
      elim (Bool-cases (m == p)) [
        | inl stop ↦ rw stop refl
        | inr on ↦
            let up = further capacity p heap h small on in
            rw on (
              sift_down_enough f capacity m (swap A p m heap) (least_child-lt A capacity p heap h)
                small (omega (arith, up, enough)))
      ]
