-- ===== src/Sampler/Sort.antt =====
-- Sorting in `src/sampler.c` keeps the entries.
use mathlib.Core.List.{reverse, reverse-cons}
use tinyllama_c.Prelude.{
  ℕ, zero, suc, ◌+◌, ◌≤◌, ◌≡◌, refl, inl, inr, Bool, true, List, [], ◌∷◌, ltb, length, take, arith,
  Bool-cases,
}
use tinyllama_c.Sampler.{Float, ProbIdx, insert_back, insert_all, sort_desc}
use tinyllama_c.Sampler.Heap.{passing, one_if, passing-append}

-- A sort that keeps how many entries pass any test.
abbrev pub Rearranges {ℓ} : {F : Type ℓ} → (List (ProbIdx F) → List (ProbIdx F)) → Type ℓ
Rearranges {F} sort =
    (test : ProbIdx F → Bool) (a : List (ProbIdx F)) → passing test (sort a) ≡ passing test a

module _ {ℓ} {F : Type ℓ} where
  pub passing-all : (a : List (ProbIdx F)) → passing (λ e. true) a ≡ length a
  passing-all [] = refl
  passing-all (e ∷ a) = omega (arith, passing-all a)

  passing-reverse :
      (test : ProbIdx F → Bool) (a : List (ProbIdx F)) → passing test (reverse a) ≡ passing test a
  passing-reverse test [] = refl
  passing-reverse test (e ∷ a) =
      rw (reverse-cons e a)
        (omega (arith, passing-append test (reverse a) (e ∷ []), passing-reverse test a))

  pub passing-take :
      (test : ProbIdx F → Bool) (n : ℕ) (a : List (ProbIdx F))
      → passing test (take n a) ≤ passing test a
  passing-take test zero a = omega arith
  passing-take test (suc n) [] = omega arith
  passing-take test (suc n) (e ∷ a) = omega (arith, passing-take test n a)

module _ {ℓ} {F : Type ℓ} (A : Float F) where
  passing-insert_back :
      (test : ProbIdx F → Bool) (v : ProbIdx F) (a : List (ProbIdx F))
      → passing test (insert_back A v a) ≡ one_if test (test v) + passing test a
  unfolding insert_back
  passing-insert_back test v [] = refl
  passing-insert_back test v (e ∷ a) = elim (Bool-cases (A.lt e.prob v.prob)) [
    | inl less ↦ rw less (omega (arith, passing-insert_back test v a))
    | inr other ↦ rw other refl
  ]

  passing-insert_all :
      (test : ProbIdx F → Bool) (sorted a : List (ProbIdx F))
      → passing test (insert_all A sorted a) ≡ passing test sorted + passing test a
  unfolding insert_all
  passing-insert_all test sorted [] = omega arith
  passing-insert_all test sorted (v ∷ a) =
      omega (
        arith,
        passing-insert_all test (insert_back A v sorted) a,
        passing-insert_back test v sorted,
      )

  -- Sorting keeps the entries.
  pub sort_desc-Rearranges :
      (qsort : List (ProbIdx F) → List (ProbIdx F))
      → Rearranges qsort
      → Rearranges (sort_desc A qsort)
  unfolding sort_desc
  sort_desc-Rearranges qsort h test a = elim (Bool-cases (ltb 64 (length a))) [
    | inl long ↦ rw long (h test a)
    | inr short ↦
        rw short
          (omega (arith, passing-reverse test (insert_all A [] a), passing-insert_all test [] a))
  ]
