-- ===== src/Sampler/Chosen.antt =====
-- The candidates of `src/sampler.c`, and what is drawn of them.
use tinyllama_c.Prelude.{
  ℕ, zero, suc, ◌+◌, ◌-◌, ◌*◌, ◌/◌, ◌≤◌, ◌<◌, ◌≡◌, refl, ◌∙◌, ap, sym, inl, inr, true, ◌||◌, List,
  [], ◌∷◌, Option, some, ltb, leb, if◌then◌else◌, length, take, get_or, arith, Bool-cases,
  length-take, min,
}
use tinyllama_c.Sampler.{
  Float, ProbIdx, SampleParam, blank, prob_at, select_top, sort_desc, scale_probs, prefix_above,
  min_p_cutoff, nucleus, cutoff_of, drawn_or, draw, draw_below, candidates, select_loop,
}
use tinyllama_c.Sampler.Heap.{passing, passing-get, length-select_top, select_top-below}
use tinyllama_c.Sampler.Sort.{Rearranges, passing-all, passing-take, sort_desc-Rearranges}

module _ {ℓ} {F : Type ℓ} (A : Float F) where
  scale-below :
      (n : ℕ) (inv_sum : F) (a : List (ProbIdx F))
      → passing (λ e. leb n e.idx) (scale_probs A inv_sum a) ≡ passing (λ e. leb n e.idx) a
  unfolding scale_probs
  scale-below n inv_sum [] = refl
  scale-below n inv_sum (e ∷ a) = omega (arith, scale-below n inv_sum a)

  length-scale : (inv_sum : F) (a : List (ProbIdx F)) → length (scale_probs A inv_sum a) ≡ length a
  unfolding scale_probs
  length-scale inv_sum [] = refl
  length-scale inv_sum (e ∷ a) = ap suc (length-scale inv_sum a)

  prefix_above-le : (threshold : F) (a : List (ProbIdx F)) → prefix_above A threshold a ≤ length a
  unfolding prefix_above
  prefix_above-le threshold [] = omega arith
  prefix_above-le threshold (e ∷ a) = elim (Bool-cases (A.le threshold e.prob)) [
    | inl above ↦ rw above (omega (arith, prefix_above-le threshold a))
    | inr below ↦ rw below (omega arith)
  ]

  nucleus-le : (top_p cum : F) (a : List (ProbIdx F)) → nucleus A top_p cum a ≤ length a
  unfolding nucleus
  nucleus-le top_p cum [] = omega arith
  nucleus-le top_p cum (e ∷ a) = elim (Bool-cases (A.le top_p (A.plus cum e.prob))) [
    | inl full ↦ rw full (omega arith)
    | inr more ↦ rw more (omega (arith, nucleus-le top_p (A.plus cum e.prob) a))
  ]

  -- The cutoff is inside the candidates.
  cutoff_of-le : (p : SampleParam F) (a : List (ProbIdx F)) → cutoff_of A p a ≤ length a
  unfolding cutoff_of min_p_cutoff
  cutoff_of-le p a = ground (
    arith,
    prefix_above-le (A.times p.min_p (prob_at A a 0)) a,
    nucleus-le p.top_p (A.of_nat 0) (take (min_p_cutoff A p a) a),
    length-take (min_p_cutoff A p a) a,
  )

  drawn-below :
      (n : ℕ) (r rn_inv cdf : F) (t : ℕ) (a : List (ProbIdx F))
      → t < n
      → passing (λ e. leb n e.idx) a ≡ 0
      → drawn_or t (draw A r rn_inv cdf a) < n
  unfolding draw
  drawn-below n r rn_inv cdf t [] h low = h
  drawn-below n r rn_inv cdf t (e ∷ a) h low =
      elim (Bool-cases (A.lt r (A.plus cdf (A.times e.prob rn_inv)))) [
        | inl here ↦ rw here (ground (arith, low))
        | inr later ↦
            rw later (
              drawn-below n r rn_inv (A.plus cdf (A.times e.prob rn_inv)) t a h
                (omega (arith, low)))
      ]

  pub draw_below-lt :
      (n : ℕ) (r : F) (cutoff : ℕ) (a : List (ProbIdx F))
      → 1 ≤ cutoff
      → cutoff ≤ length a
      → passing (λ e. leb n e.idx) a ≡ 0
      → draw_below A r cutoff a < n
  unfolding draw_below
  draw_below-lt n r cutoff a some_kept inside low =
      let last : (get_or a (cutoff - 1) (blank A)).idx < n = ground (
        arith,
        passing-get (λ e. leb n e.idx) a (cutoff - 1) (blank A) (omega (arith, some_kept, inside)),
        low,
      ) in
      drawn-below n r _ _ _ (take cutoff a) last
        (omega (arith, passing-take (λ e. leb n e.idx) cutoff a, low))

  module _ (qsort : List (ProbIdx F) → List (ProbIdx F)) (sorts : Rearranges qsort)
      (p : SampleParam F) where
    candidates-below :
        (capacity : ℕ) (vals : List F) (inv_sum : F)
        → 1 ≤ capacity
        → passing (λ e. leb (length vals) e.idx) (candidates A qsort p capacity vals inv_sum) ≡ 0
    unfolding candidates
    candidates-below capacity vals inv_sum some_room =
        let n = length vals in
        let top = select_top A capacity vals in
        scale-below n inv_sum (sort_desc A qsort top)
        ∙ sort_desc-Rearranges A qsort sorts (λ e. leb n e.idx) top
        ∙ select_top-below A capacity vals some_room

    length-candidates :
        (capacity : ℕ) (vals : List F) (inv_sum : F)
        → length (candidates A qsort p capacity vals inv_sum) ≡ min capacity (length vals)
    unfolding candidates
    length-candidates capacity vals inv_sum =
        let top = select_top A capacity vals in
        let sorted = sort_desc A qsort top in
        length-scale inv_sum sorted
        ∙ sym (passing-all sorted)
        ∙ sort_desc-Rearranges A qsort sorts (λ e. true) top
        ∙ passing-all top
        ∙ length-select_top A capacity vals

    -- What the loop returns: tokens of the vocabulary, at least one of them, and a cutoff among them.
    pub record Selected (n : ℕ) (o : Option (List (ProbIdx F) × ℕ)) : Type ℓ where
      pub kept : List (ProbIdx F)
      pub cutoff : ℕ
      pub returns : o ≡ some (kept, cutoff)
      pub known : passing (λ e. leb n e.idx) kept ≡ 0
      pub nonempty : 1 ≤ length kept
      pub inside : cutoff ≤ length kept

    -- Each round that is not the last has a larger capacity.
    pub select_loop-Selected :
        (f capacity : ℕ) (vals : List F) (inv_sum : F)
        → 1 ≤ capacity
        → capacity ≤ length vals
        → length vals < capacity + f
        → Selected (length vals) (select_loop A qsort p f capacity vals inv_sum)
    unfolding select_loop
    select_loop-Selected zero capacity vals inv_sum some_room le enough = absurd (omega arith)
    select_loop-Selected (suc f) capacity vals inv_sum some_room le enough =
        let n = length vals in
        let pi = candidates A qsort p capacity vals inv_sum in
        let cutoff = cutoff_of A p pi in
        elim (Bool-cases (ltb 0 p.top_k || ltb cutoff (length pi) || leb n capacity)) [
          | inl stop ↦ rw stop (record {
            kept = pi;
            cutoff = cutoff;
            returns = refl;
            known = candidates-below capacity vals inv_sum some_room;
            nonempty = omega (arith, length-candidates capacity vals inv_sum, some_room, le);
            inside = cutoff_of-le p pi;
          })
          | inr on ↦
              let more : capacity < n = ground (arith, on) in
              rw on (
                select_loop-Selected f (if ltb (n / 4) capacity then n else capacity * 4) vals
                  inv_sum (ground (arith, more)) (ground (arith, more))
                  (ground (arith, more, enough)))
        ]
