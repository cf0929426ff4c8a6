-- ===== src/Sampler/Heap.antt =====
-- The entries that the heap of `src/sampler.c` holds, counted by a test.
use tinyllama_c.Prelude.{
  ℕ, zero, suc, ◌+◌, ◌-◌, ◌/◌, ◌≤◌, ◌<◌, ◌≡◌, refl, ◌∙◌, ap, inl, inr, Bool, false, ◌||◌, List, [],
  ◌∷◌, ◌++◌, ltb, leb, ◌==◌, if◌then◌else◌, length, get_or, set, arith, Bool-cases, length-set,
  length-append, get_or-set_self, get_or-set_ne, min,
}
use tinyllama_c.Sampler.{
  Float, ProbIdx, blank, prob_at, swap, sift_up, least_child, sift_down, select_step, select_from,
  select_top,
}

module _ {ℓ} {F : Type ℓ} (test : ProbIdx F → Bool) where
  abbrev pub one_if : Bool → ℕ
  one_if b = if b then 1 else 0

  -- How many entries pass the test.
  abbrev pub passing : List (ProbIdx F) → ℕ
  passing [] = 0
  passing (e ∷ es) = one_if (test e) + passing es

  pub passing-append : (a b : List (ProbIdx F)) → passing (a ++ b) ≡ passing a + passing b
  passing-append [] b = omega arith
  passing-append (e ∷ a) b = omega (arith, passing-append a b)

  pub passing-set :
      (a : List (ProbIdx F)) (i : ℕ) (v d : ProbIdx F)
      → i < length a
      → passing (set a i v) + one_if (test (get_or a i d)) ≡ passing a + one_if (test v)
  passing-set [] i v d h = absurd (omega arith)
  passing-set (e ∷ a) zero v d h = omega arith
  passing-set (e ∷ a) (suc i) v d h = omega (arith, passing-set a i v d (omega arith))

  pub passing-get :
      (a : List (ProbIdx F)) (i : ℕ) (d : ProbIdx F)
      → i < length a
      → one_if (test (get_or a i d)) ≤ passing a
  passing-get [] i d h = absurd (omega arith)
  passing-get (e ∷ a) zero d h = omega arith
  passing-get (e ∷ a) (suc i) d h = omega (arith, passing-get a i d (omega arith))

module _ {ℓ} {F : Type ℓ} (A : Float F) where
  read_back :
      (heap : List (ProbIdx F)) (i j : ℕ)
      → j < length heap
      → get_or (set heap i (get_or heap j (blank A))) j (blank A) ≡ get_or heap j (blank A)
  read_back heap i j h = elim (Bool-cases (i == j)) [
    | inl same ↦
        let e : i ≡ j = ground (arith, same) in
        rw e (get_or-set_self heap j (get_or heap j (blank A)) (blank A) h)
    | inr other ↦
        get_or-set_ne heap i j (get_or heap j (blank A)) (blank A) (λ e. ground (arith, e, other))
  ]

  length-swap : (i j : ℕ) (heap : List (ProbIdx F)) → length (swap A i j heap) ≡ length heap
  unfolding swap
  length-swap i j heap = length-set (set heap i _) j _ ∙ length-set heap i _

  passing-swap :
      (test : ProbIdx F → Bool) (i j : ℕ) (heap : List (ProbIdx F))
      → i < length heap
      → j < length heap
      → passing test (swap A i j heap) ≡ passing test heap
  unfolding swap
  passing-swap test i j heap hi hj =
      let gi = get_or heap i (blank A) in
      let gj = get_or heap j (blank A) in
      omega (
        arith,
        passing-set test heap i gj (blank A) hi,
        passing-set test (set heap i gj) j gi (blank A) (omega (arith, hj, length-set heap i gj)),
        ap (λ e. one_if test (test e)) (read_back heap i j hj),
      )

  length-sift_up : (f c : ℕ) (heap : List (ProbIdx F)) → length (sift_up A f c heap) ≡ length heap
  unfolding sift_up
  length-sift_up zero c heap = refl
  length-sift_up (suc f) c heap =
      let p = (c - 1) / 2 in
      elim (Bool-cases (c == 0 || A.le (prob_at A heap p) (prob_at A heap c))) [
        | inl stop ↦ rw stop refl
        | inr on ↦ rw on (length-sift_up f p (swap A p c heap) ∙ length-swap p c heap)
      ]

  passing-sift_up :
      (test : ProbIdx F → Bool) (f c : ℕ) (heap : List (ProbIdx F))
      → c < length heap
      → passing test (sift_up A f c heap) ≡ passing test heap
  unfolding sift_up
  passing-sift_up test zero c heap h = refl
  passing-sift_up test (suc f) c heap h =
      let p = (c - 1) / 2 in
      elim (Bool-cases (c == 0 || A.le (prob_at A heap p) (prob_at A heap c))) [
        | inl stop ↦ rw stop refl
        | inr on ↦ rw on (
            passing-sift_up test f p (swap A p c heap) (omega (arith, length-swap p c heap))
            ∙ passing-swap test p c heap (omega arith) h)
      ]

  pub least_child-lt :
      (capacity p : ℕ) (heap : List (ProbIdx F))
      → p < capacity
      → least_child A capacity p heap < capacity
  unfolding least_child
  least_child-lt capacity p heap h = ground (arith, h)

  length-sift_down :
      (f capacity p : ℕ) (heap : List (ProbIdx F))
      → length (sift_down A f capacity p heap) ≡ length heap
  unfolding sift_down
  length-sift_down zero capacity p heap = refl
  length-sift_down (suc f) capacity p heap =
      let m = least_child A capacity p heap in
      elim (Bool-cases (m == p)) [
        | inl stop ↦ rw stop refl
        | inr on ↦ rw on (length-sift_down f capacity m (swap A p m heap) ∙ length-swap p m heap)
      ]

  passing-sift_down :
      (test : ProbIdx F → Bool) (f capacity p : ℕ) (heap : List (ProbIdx F))
      → p < capacity
      → capacity ≤ length heap
      → passing test (sift_down A f capacity p heap) ≡ passing test heap
  unfolding sift_down
  passing-sift_down test zero capacity p heap h le = refl
  passing-sift_down test (suc f) capacity p heap h le =
      let m = least_child A capacity p heap in
      let lt = least_child-lt capacity p heap h in
      elim (Bool-cases (m == p)) [
        | inl stop ↦ rw stop refl
        | inr on ↦ rw on (
            passing-sift_down test f capacity m (swap A p m heap) lt
              (omega (arith, le, length-swap p m heap))
            ∙ passing-swap test p m heap (omega (arith, h, le)) (omega (arith, lt, le)))
      ]

  length-select_step :
      (capacity i : ℕ) (v : F) (heap : List (ProbIdx F))
      → length heap ≤ capacity
      → length (select_step A capacity i v heap) ≡ min capacity (suc (length heap))
  unfolding select_step
  length-select_step capacity i v heap le =
      let e : ProbIdx F = record { prob = v; idx = i } in
      elim (Bool-cases (ltb (length heap) capacity)) [
        | inl roomy ↦ rw roomy (
            ground (
              arith,
              roomy,
              length-sift_up (length heap) (length heap) (heap ++ (e ∷ [])),
              length-append heap (e ∷ []),
            ))
        | inr full ↦ rw full (elim (Bool-cases (A.lt (prob_at A heap 0) v)) [
          | inl above ↦ rw above (
              ground (
                arith,
                full,
                le,
                length-sift_down capacity capacity 0 (set heap 0 e),
                length-set heap 0 e,
              ))
          | inr below ↦ rw below (ground (arith, full, le))
        ])
      ]

  -- A step adds at most the entry of its value.
  passing-select_step :
      (test : ProbIdx F → Bool) (capacity i : ℕ) (v : F) (heap : List (ProbIdx F))
      → 1 ≤ capacity
      → length heap ≤ capacity
      → passing test (select_step A capacity i v heap)
        ≤ passing test heap + one_if test (test (record { prob = v; idx = i }))
  unfolding select_step
  passing-select_step test capacity i v heap some_room le =
      let e : ProbIdx F = record { prob = v; idx = i } in
      elim (Bool-cases (ltb (length heap) capacity)) [
        | inl roomy ↦ rw roomy (
            omega (
              arith,
              passing-sift_up test (length heap) (length heap) (heap ++ (e ∷ []))
                  (omega (arith, length-append heap (e ∷ []))),
              passing-append test heap (e ∷ []),
            ))
        | inr full ↦ rw full (elim (Bool-cases (A.lt (prob_at A heap 0) v)) [
          | inl above ↦
              let whole : capacity ≤ length heap = ground (arith, full) in
              rw above (
                omega (
                  arith,
                  passing-sift_down test capacity capacity 0 (set heap 0 e) some_room
                      (omega (arith, whole, length-set heap 0 e)),
                  passing-set test heap 0 e (blank A) (omega (arith, whole, some_room)),
                ))
          | inr below ↦ rw below (omega arith)
        ])
      ]

  length-select_from :
      (capacity i : ℕ) (vals : List F) (heap : List (ProbIdx F))
      → length heap ≤ capacity
      → length (select_from A capacity i vals heap) ≡ min capacity (length heap + length vals)
  unfolding select_from
  length-select_from capacity i [] heap le = ground (arith, le)
  length-select_from capacity i (v ∷ vals) heap le =
      let step = length-select_step capacity i v heap le in
      ground (
        arith,
        step,
        length-select_from capacity (suc i) vals (select_step A capacity i v heap)
            (ground (arith, step)),
        le,
      )

  -- The heap has as many entries as the values and its capacity allow.
  pub length-select_top :
      (capacity : ℕ) (vals : List F)
      → length (select_top A capacity vals) ≡ min capacity (length vals)
  length-select_top capacity vals =
      omega (arith, length-select_from capacity 0 vals [] (omega arith))

  select_from-below :
      (n capacity i : ℕ) (vals : List F) (heap : List (ProbIdx F))
      → 1 ≤ capacity
      → length heap ≤ capacity
      → i + length vals ≤ n
      → passing (λ e. leb n e.idx) (select_from A capacity i vals heap)
        ≤ passing (λ e. leb n e.idx) heap
  unfolding select_from
  select_from-below n capacity i [] heap some_room le h = omega arith
  select_from-below n capacity i (v ∷ vals) heap some_room le h =
      let step = length-select_step capacity i v heap le in
      let low : leb n i ≡ false = ground (arith, h) in
      let added = passing-select_step (λ e. leb n e.idx) capacity i v heap some_room le in
      let added' : passing (λ e. leb n e.idx) (select_step A capacity i v heap)
          ≤ passing (λ e. leb n e.idx) heap =
        ground (arith, added, low) in
      omega (
        arith,
        select_from-below n capacity (suc i) vals (select_step A capacity i v heap) some_room
            (ground (arith, step)) (omega (arith, h)),
        added',
      )

  -- None of them is past the values.
  pub select_top-below :
      (capacity : ℕ) (vals : List F)
      → 1 ≤ capacity
      → passing (λ e. leb (length vals) e.idx) (select_top A capacity vals) ≡ 0
  select_top-below capacity vals some_room = omega (
    arith,
    select_from-below (length vals) capacity 0 vals [] some_room (omega arith) (omega arith),
  )
