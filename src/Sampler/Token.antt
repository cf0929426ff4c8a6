-- ===== src/Sampler/Token.antt =====
-- The token that `sample_token` of `src/sampler.c` returns.
use tinyllama_c.Prelude.{
  ℕ, suc, ◌+◌, ◌-◌, ◌≤◌, ◌<◌, ◌≡◌, refl, ◌∙◌, ap, sym, inl, inr, ◌&&◌, ◌||◌, List, [], ◌∷◌, map,
  Option, some, ltb, leb, ◌==◌, if◌then◌else◌, length, drop, get_or, set, arith, Bool-cases,
  length-set, length-drop,
}
use tinyllama_c.Sampler.{
  Float, ProbIdx, SampleParam, best_from, sample_greedy, penalize, repeat_penalties, penalized,
  exponentials, softmax, draw_below, sample_stochastic, sample_token, occurrences, rng_float,
  xorshift, seeded, sum_from,
}
use tinyllama_c.Sampler.Sort.{Rearranges}
use tinyllama_c.Sampler.Chosen.{draw_below-lt, select_loop-Selected}

-- A token of a vocabulary of `n`, with the next state of the generator.
abbrev pub Sampled : ℕ → Option (ℕ × ℕ) → Type 0
Sampled n o = (t : ℕ) × (next : ℕ) × (o ≡ some (t, next)) × (t < n)

module _ {ℓ} {F : Type ℓ} (A : Float F) where
  module _ (qsort : List (ProbIdx F) → List (ProbIdx F)) (sorts : Rearranges qsort)
      (p : SampleParam F) where
    length-penalize :
        (seen window : List ℕ) (logits : List F)
        → length (penalize A p seen window logits) ≡ length logits
    unfolding penalize
    length-penalize seen [] logits = refl
    length-penalize seen (t ∷ rest) logits =
        let v = penalized A p (suc (occurrences A t rest)) (get_or logits t (A.of_nat 0)) in
        elim (Bool-cases (leb (length logits) t || ltb 0 (occurrences A t seen))) [
          | inl skipped ↦ rw skipped (length-penalize (t ∷ seen) rest logits)
          | inr counted ↦
              rw counted (length-penalize (t ∷ seen) rest (set logits t v) ∙ length-set logits t v)
        ]

    length-repeat_penalties :
        (history : List ℕ) (logits : List F)
        → length (repeat_penalties A p history logits) ≡ length logits
    unfolding repeat_penalties
    length-repeat_penalties history logits =
        let window = drop (length history - p.repeat_last_n) history in
        ground (arith, length-penalize [] window logits)

    length-softmax :
        (inv_temp : F) (logits : List F) → length (softmax A inv_temp logits) ≡ length logits
    unfolding softmax exponentials
    length-softmax inv_temp logits = mapped (λ l. A.expf (A.minus (A.times l inv_temp) _)) logits
      where
        mapped : (g : F → F) (l : List F) → length (map g l) ≡ length l
        mapped g [] = refl
        mapped g (x ∷ l) = ap suc (mapped g l)

    best_from-lt :
        (n i best : ℕ) (best_val : F) (vs : List F)
        → best < n
        → i + length vs ≤ n
        → best_from A i best best_val vs < n
    unfolding best_from
    best_from-lt n i best best_val [] h le = h
    best_from-lt n i best best_val (v ∷ vs) h le = elim (Bool-cases (A.lt best_val v)) [
      | inl better ↦
          rw better (best_from-lt n (suc i) i v vs (omega (arith, le)) (omega (arith, le)))
      | inr other ↦ rw other (best_from-lt n (suc i) best best_val vs h (omega (arith, le)))
    ]

    sample_greedy-lt :
        (logits : List F) → 0 < length logits → sample_greedy A logits < length logits
    unfolding sample_greedy
    sample_greedy-lt logits h =
        best_from-lt (length logits) 1 0 (get_or logits 0 (A.of_nat 0)) (drop 1 logits) h
          (omega (arith, length-drop 1 logits))

    sample_stochastic-Sampled :
        (state : ℕ) (logits : List F)
        → 0 < length logits
        → Sampled (length logits) (sample_stochastic A qsort p state logits)
    unfolding sample_stochastic
    sample_stochastic-Sampled state logits h =
        let vals = softmax A (A.over (A.of_nat 1) p.temperature) logits in
        let inv_sum = A.over (A.of_nat 1) (sum_from A (A.of_nat 0) vals) in
        let first = if ltb 0 p.top_k then p.top_k else 64 in
        let capacity = if ltb (length logits) first then length logits else first in
        let same = length-softmax (A.over (A.of_nat 1) p.temperature) logits in
        let lower : 1 ≤ capacity = ground (arith, h) in
        let upper : capacity ≤ length vals = ground (arith, same) in
        let s =
          select_loop-Selected A qsort sorts p (suc (length logits)) capacity vals inv_sum lower
            upper (omega (arith, same, lower)) in
        let cutoff = if ltb s.cutoff 1 then 1 else s.cutoff in
        let r = rng_float A (xorshift state) in
        (
          draw_below A r cutoff s.kept,
          xorshift state,
          rw s.returns refl,
          omega (
            arith,
            same,
            draw_below-lt A (length vals) r cutoff s.kept (ground arith)
                (ground (arith, s.nonempty, s.inside)) s.known,
          ),
        )

    -- Whatever the float operations return, with logits that are not empty and a `qsort` that only
    -- rearranges, the loop over the capacities ends, and the token is one of the vocabulary.
    pub sample_token-Sampled :
        (self state : ℕ) (logits : List F) (history : List ℕ)
        → 0 < length logits
        → Sampled (length logits) (sample_token A qsort p self state logits history)
    unfolding sample_token
    sample_token-Sampled self state logits history h =
        let after = repeat_penalties A p history logits in
        let same = length-repeat_penalties history logits in
        let some_left : 0 < length after = omega (arith, h, same) in
        elim (Bool-cases (
          A.le p.temperature A.default_eps
          || (p.top_k == 0 && A.le (A.of_nat 1) p.top_p && A.le p.min_p A.default_eps))) [
            | inl greedy ↦ rw greedy (
              sample_greedy A after,
              state,
              refl,
              omega (arith, same, sample_greedy-lt after some_left),
            )
            | inr mixed ↦
                rw (mixed, sym same) (sample_stochastic-Sampled (seeded self state) after some_left)
          ]
