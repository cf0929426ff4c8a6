-- ===== src/Sampler/Greedy.antt =====
-- Greedy sampling, in `src/sampler.c`.
use tinyllama_c.Prelude.{
  ℕ, suc, ◌+◌, ◌<◌, ◌≡◌, ◌∙◌, ap, inl, inr, true, false, List, [], ◌∷◌, ◌==◌, length, get_or, arith,
  Bool-cases,
}
use tinyllama_c.Sampler.{Float, best_from, sample_greedy}

-- Floats of which any two are ordered by `<` or alike, as they are without a NaN.
pub record Ordered {ℓ} {F : Type ℓ} (A : Float F) : Type ℓ where
  pub irreflexive : (a : F) → A.lt a a ≡ false
  pub transitive : (a b c : F) → A.lt a b ≡ true → A.lt b c ≡ true → A.lt a c ≡ true
  pub alike : (a b c : F) → A.lt a b ≡ false → A.lt b c ≡ false → A.lt a c ≡ false

module _ {ℓ} {F : Type ℓ} (A : Float F) where
  abbrev pub value : List F → ℕ → F
  value logits i = get_or logits i (A.of_nat 0)

  -- Of the first `i` logits, `best` is the first that none is above.
  pub record IsFirst (logits : List F) (i best : ℕ) : Type ℓ where
    pub known : best < i
    pub highest : (j : ℕ) → j < i → A.lt (value logits best) (value logits j) ≡ false
    pub first : (j : ℕ) → j < best → A.lt (value logits j) (value logits best) ≡ true

  module _ (order : Ordered A) where
    not_above : (b v x : F) → A.lt b v ≡ true → A.lt b x ≡ false → A.lt v x ≡ false
    not_above b v x up low = elim (Bool-cases (A.lt v x)) [
      | inl above ↦ let h = order.transitive b v x up above in absurd (cc)
      | inr other ↦ other
    ]

    below : (b v x : F) → A.lt b v ≡ true → A.lt b x ≡ false → A.lt x v ≡ true
    below b v x up low = elim (Bool-cases (A.lt x v)) [
      | inl less ↦ less
      | inr other ↦ let h = order.alike b x v low other in absurd (cc)
    ]

    higher :
        (logits : List F) (i best : ℕ)
        → IsFirst logits i best
        → A.lt (value logits best) (value logits i) ≡ true
        → IsFirst logits (suc i) i
    higher logits i best h up = record {
      known = omega arith;
      highest = λ j lt. elim (Bool-cases (j == i)) [
        | inl same ↦
            let e : j ≡ i = ground (arith, same) in rw e (order.irreflexive (value logits i))
        | inr other ↦ not_above _ _ _ up (h.highest j (ground (arith, other, lt)))
      ];
      first = λ j lt. below _ _ _ up (h.highest j lt);
    }

    as_high :
        (logits : List F) (i best : ℕ)
        → IsFirst logits i best
        → A.lt (value logits best) (value logits i) ≡ false
        → IsFirst logits (suc i) best
    as_high logits i best h low = record {
      known = omega (arith, h.known);
      highest = λ j lt. elim (Bool-cases (j == i)) [
        | inl same ↦ let e : j ≡ i = ground (arith, same) in rw e low
        | inr other ↦ h.highest j (ground (arith, other, lt))
      ];
      first = h.first;
    }

    best_from-IsFirst :
        (logits vs : List F) (i best : ℕ)
        → IsFirst logits i best
        → ((k : ℕ) → get_or vs k (A.of_nat 0) ≡ value logits (i + k))
        → IsFirst logits (i + length vs) (best_from A i best (value logits best) vs)
    unfolding best_from
    best_from-IsFirst logits [] i best h same = let e : i + 0 ≡ i = omega arith in rw e h
    best_from-IsFirst logits (v ∷ vs) i best h same =
        let here : i + 0 ≡ i = omega arith in
        let e : v ≡ value logits i = rw here at (same 0) in
        let shift : i + suc (length vs) ≡ suc i + length vs = omega arith in
        let rest : (k : ℕ) → get_or vs k (A.of_nat 0) ≡ value logits (suc i + k) =
          λ k. same (suc k) ∙ ap (value logits) (omega arith) in
        rw (shift, e)
          (elim (Bool-cases (A.lt (value logits best) (value logits i))) [
            | inl up ↦
                rw up (best_from-IsFirst logits vs (suc i) i (higher logits i best h up) rest)
            | inr low ↦
                rw low (best_from-IsFirst logits vs (suc i) best (as_high logits i best h low) rest)
          ])

    -- Where any two floats are ordered or alike, greedy sampling of logits that are not empty returns
    -- the first of the highest.
    pub sample_greedy-IsFirst :
        (logits : List F)
        → 0 < length logits
        → IsFirst logits (length logits) (sample_greedy A logits)
    unfolding sample_greedy
    sample_greedy-IsFirst [] h = absurd (omega arith)
    sample_greedy-IsFirst (l ∷ ls) h =
        let one : 1 + length ls ≡ suc (length ls) = omega arith in
        rw one at (
          best_from-IsFirst (l ∷ ls) ls 1 0
            (record {
              known = omega arith;
              highest = λ j lt. let e : j ≡ 0 = omega arith in rw e (order.irreflexive l);
              first = λ j lt. absurd (omega arith);
            })
            (λ k. let e : suc k ≡ 1 + k = omega arith in ap (value (l ∷ ls)) e))
