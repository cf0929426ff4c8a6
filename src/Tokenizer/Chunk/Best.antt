-- ===== src/Tokenizer/Chunk/Best.antt =====
-- The scan for the best pair against its specification: the leftmost pair of least rank.
use native.Mathlib.Decide.{dec_lt}
use tinyllama_c.Prelude.{
  ℕ, zero, suc, ◌+◌, ◌-◌, ◌^◌, ◌≤◌, ◌<◌, ◌≡◌, ◌≢◌, ◌⊎◌, inl, inr, refl, true, false, not, ◌&&◌,
  List, [], ◌∷◌, Option, none, some, ltb, if◌then◌else◌, length, arith,
}
use tinyllama_c.Vocab.Lookup.{is_negative}
use tinyllama_c.Tokenizer.Lexicon.{Lexicon}
use tinyllama_c.Tokenizer.Chunk.{scan_ranks, best_pair}

module _ (lex : Lexicon) where
  -- The rank of the pair at `i`, where it is a merge that the encoder may take.
  pub pair_rank : List ℕ → ℕ → Option ℕ
  pair_rank [] i = none
  pair_rank (x ∷ []) i = none
  pair_rank (x ∷ y ∷ ys) zero =
      if ltb (lex.merge_rank x y) (2 ^ 31 - 1) then some (lex.merge_rank x y) else none
  pair_rank (x ∷ y ∷ ys) (suc i) = pair_rank (y ∷ ys) i

  pub pair_rank-lt : (s : List ℕ) (i r : ℕ) → pair_rank s i ≡ some r → i + 1 < length s
  unfolding pair_rank
  pair_rank-lt [] i r h = cc
  pair_rank-lt (x ∷ []) i r h = cc
  pair_rank-lt (x ∷ y ∷ ys) zero r h = omega arith
  pair_rank-lt (x ∷ y ∷ ys) (suc i) r h = omega (arith, pair_rank-lt (y ∷ ys) i r h)

  pair_rank-lt_max : (s : List ℕ) (i r : ℕ) → pair_rank s i ≡ some r → r < 2 ^ 31 - 1
  unfolding pair_rank
  pair_rank-lt_max [] i r h = cc
  pair_rank-lt_max (x ∷ []) i r h = cc
  pair_rank-lt_max (x ∷ y ∷ ys) zero r h = ground arith
  pair_rank-lt_max (x ∷ y ∷ ys) (suc i) r h = pair_rank-lt_max (y ∷ ys) i r h

  -- The pair at `k` has rank `r`, no pair has a smaller one, and none before it has the same.
  pub record IsBest (s : List ℕ) (k r : ℕ) : Type 0 where
    pub ranked : pair_rank s k ≡ some r
    pub least : (j t : ℕ) → pair_rank s j ≡ some t → r ≤ t
    pub leftmost : (j t : ℕ) → pair_rank s j ≡ some t → j < k → r < t

  abbrev pub NoPair : List ℕ → Type 0
  NoPair s = (j t : ℕ) → pair_rank s j ≢ some t

  -- All that a scan with best rank `bound` so far can say of the pairs of `s`.
  abbrev Scanned : List ℕ → ℕ → ℕ → Option ℕ → Option ℕ → Type 0
  Scanned s i bound best result =
      ((result ≡ best) × ((j t : ℕ) → pair_rank s j ≡ some t → bound ≤ t))
      ⊎ ((k r : ℕ) × (result ≡ some (i + k)) × (r < bound) × IsBest s k r)

  module _ (x y : ℕ) (ys : List ℕ) (i bound : ℕ) (small : bound ≤ 2 ^ 31 - 1) where
    abbrev rank : ℕ
    rank = lex.merge_rank x y

    scan_better :
        {best result : Option ℕ}
        → rank < bound
        → Scanned (y ∷ ys) (i + 1) rank (some i) result
        → Scanned (x ∷ y ∷ ys) i bound best result
    unfolding pair_rank
    scan_better lt (inl (e, above)) = inr (
      0,
      rank,
      ground arith,
      lt,
      record { ranked = ground arith; least = least; leftmost = λ j t h l. absurd (omega arith) },
    )
      where
        least : (j t : ℕ) → pair_rank (x ∷ y ∷ ys) j ≡ some t → rank ≤ t
        least zero t h = ground arith
        least (suc j) t h = above j t h
    scan_better lt (inr (k, r, e, below, best)) = inr (
      suc k,
      r,
      ground arith,
      omega arith,
      record { ranked = best.ranked; least = least; leftmost = leftmost },
    )
      where
        least : (j t : ℕ) → pair_rank (x ∷ y ∷ ys) j ≡ some t → r ≤ t
        least zero t h = ground arith
        least (suc j) t h = best.least j t h

        leftmost : (j t : ℕ) → pair_rank (x ∷ y ∷ ys) j ≡ some t → j < suc k → r < t
        leftmost zero t h l = ground arith
        leftmost (suc j) t h l = best.leftmost j t h (omega arith)

    scan_worse :
        {best result : Option ℕ}
        → bound ≤ rank
        → Scanned (y ∷ ys) (i + 1) bound best result
        → Scanned (x ∷ y ∷ ys) i bound best result
    unfolding pair_rank
    scan_worse le (inl (e, above)) = inl (e, at_least)
      where
        at_least : (j t : ℕ) → pair_rank (x ∷ y ∷ ys) j ≡ some t → bound ≤ t
        at_least zero t h = ground arith
        at_least (suc j) t h = above j t h
    scan_worse le (inr (k, r, e, below, best)) = inr (
      suc k,
      r,
      ground arith,
      below,
      record { ranked = best.ranked; least = least; leftmost = leftmost },
    )
      where
        least : (j t : ℕ) → pair_rank (x ∷ y ∷ ys) j ≡ some t → r ≤ t
        least zero t h = ground arith
        least (suc j) t h = best.least j t h

        leftmost : (j t : ℕ) → pair_rank (x ∷ y ∷ ys) j ≡ some t → j < suc k → r < t
        leftmost zero t h l = ground arith
        leftmost (suc j) t h l = best.leftmost j t h (omega arith)

  scan_ranks-Scanned :
      (x : ℕ) (xs : List ℕ) (i bound : ℕ) (best : Option ℕ)
      → bound ≤ 2 ^ 31 - 1
      → Scanned (x ∷ xs) i bound best (scan_ranks lex x xs i bound best)
  unfolding scan_ranks pair_rank
  scan_ranks-Scanned x [] i bound best small = inl (refl, λ j t h. cc)
  scan_ranks-Scanned x (y ∷ ys) i bound best small =
      let rank = lex.merge_rank x y in
      elim (dec_lt rank bound) [
        | yes lt ↦
            let better : (not (is_negative rank) && ltb rank bound) ≡ true = ground arith in
            rw better (
              scan_better x y ys i bound small lt
                (scan_ranks-Scanned y ys (i + 1) rank (some i) (omega arith)))
        | no ge ↦
            let worse : (not (is_negative rank) && ltb rank bound) ≡ false = ground arith in
            rw worse (
              scan_worse x y ys i bound small (omega arith)
                (scan_ranks-Scanned y ys (i + 1) bound best small))
      ]

  -- The scan finds the leftmost pair of least rank, and nothing only if there is no pair to merge.
  pub best_pair-IsBest :
      (s : List ℕ)
      → ((best_pair lex s ≡ none) × NoPair s)
        ⊎ ((k r : ℕ) × (best_pair lex s ≡ some k) × IsBest s k r)
  unfolding best_pair pair_rank
  best_pair-IsBest [] = inl (refl, λ j t h. cc)
  best_pair-IsBest (x ∷ xs) = elim (scan_ranks-Scanned x xs 0 (2 ^ 31 - 1) none (omega arith)) [
    | inl (e, above) ↦
        inl (e, λ j t h. absurd (omega (arith, above j t h, pair_rank-lt_max (x ∷ xs) j t h)))
    | inr (k, r, e, below, best) ↦ inr (k, r, ground arith, best)
  ]
