-- ===== src/Sampler.antt =====
-- Sampling of the next token, `src/sampler.c`. The floats and their operations are a parameter, for the
-- theorems hold of any; `qsort` is another. The size of the vocabulary is the length of the logits,
-- which is not 0, and no allocation fails. What is left in the logits is not part of the result.
pub mod Heap
pub mod Sort
pub mod Chosen
pub mod Token
pub mod Greedy
pub mod Rounds
use mathlib.Core.Option
use mathlib.Core.List.{reverse}
use tinyllama_c.Prelude.{
  ℕ, zero, suc, ◌+◌, ◌-◌, ◌*◌, ◌/◌, ◌%◌, ◌^◌, Bool, true, false, not, ◌&&◌, ◌||◌, List, [], ◌∷◌,
  ◌++◌, map, Option, none, some, ltb, leb, ◌==◌, if◌then◌else◌, length, take, drop, get_or, set,
  bit_xor,
}

-- `float`, with the constant `1e-6f` of `DEFAULT_EPS`.
pub record Float {ℓ} (F : Type ℓ) : Type ℓ where
  pub lt : F → F → Bool
  pub le : F → F → Bool
  pub same : F → F → Bool
  pub plus : F → F → F
  pub minus : F → F → F
  pub times : F → F → F
  pub over : F → F → F
  pub expf : F → F
  pub of_nat : ℕ → F
  pub default_eps : F

pub record ProbIdx {ℓ} (F : Type ℓ) : Type ℓ where
  pub prob : F
  pub idx : ℕ

pub record SampleParam {ℓ} (F : Type ℓ) : Type ℓ where
  pub temperature : F
  pub top_k : ℕ
  pub top_p : F
  pub min_p : F
  pub repeat_penalty : F
  pub repeat_last_n : ℕ
  pub frequency_penalty : F
  pub presence_penalty : F

-- The state of the generator, from the thread where it is 0, and after a step.
unfoldable pub seeded : ℕ → ℕ → ℕ
seeded self x =
    let mixed = bit_xor (self % 2 ^ 32) 0x9E3779B9 in
    if x == 0 then if mixed == 0 then 0x9E3779B9 else mixed else x

unfoldable pub xorshift : ℕ → ℕ
xorshift x =
    let y = bit_xor x (x * 2 ^ 13 % 2 ^ 32) in
    let z = bit_xor y (y / 2 ^ 17) in bit_xor z (z * 2 ^ 5 % 2 ^ 32)

-- The token that was drawn, or else `t`.
abbrev pub drawn_or : ℕ → Option ℕ → ℕ
drawn_or t none = t
drawn_or t (some u) = u

module _ {ℓ} {F : Type ℓ} (A : Float F) where
  unfoldable pub rng_float : ℕ → F
  rng_float x = A.times (A.of_nat (x / 2 ^ 8)) (A.over (A.of_nat 1) (A.of_nat 16777216))

  -- What is read past the end of an array, which no run does.
  abbrev pub blank : ProbIdx F
  blank = record { prob = A.of_nat 0; idx = 0 }

  unfoldable pub swap : ℕ → ℕ → List (ProbIdx F) → List (ProbIdx F)
  swap i j heap = set (set heap i (get_or heap j blank)) j (get_or heap i blank)

  abbrev pub prob_at : List (ProbIdx F) → ℕ → F
  prob_at heap i = (get_or heap i blank).prob

  -- From entry `c`, with `c` rounds.
  unfoldable pub sift_up : ℕ → ℕ → List (ProbIdx F) → List (ProbIdx F)
  sift_up zero c heap = heap
  sift_up (suc f) c heap =
      let p = (c - 1) / 2 in
      let rest = sift_up f p (swap p c heap) in
      if c == 0 || A.le (prob_at heap p) (prob_at heap c) then heap else rest

  -- The least of entry `p` and the entries below it.
  unfoldable pub least_child : ℕ → ℕ → List (ProbIdx F) → ℕ
  least_child capacity p heap =
      let l = (2 * p + 1) % 2 ^ 32 in
      let r = (l + 1) % 2 ^ 32 in
      let m = if ltb l capacity && A.lt (prob_at heap l) (prob_at heap p) then l else p in
      if ltb r capacity && A.lt (prob_at heap r) (prob_at heap m) then r else m

  -- From entry `p`, with a round for each entry.
  unfoldable pub sift_down : ℕ → ℕ → ℕ → List (ProbIdx F) → List (ProbIdx F)
  sift_down zero capacity p heap = heap
  sift_down (suc f) capacity p heap =
      let m = least_child capacity p heap in
      let rest = sift_down f capacity m (swap p m heap) in if m == p then heap else rest

  unfoldable pub select_step : ℕ → ℕ → F → List (ProbIdx F) → List (ProbIdx F)
  select_step capacity i v heap =
      let e : ProbIdx F = record { prob = v; idx = i } in
      if ltb (length heap) capacity
      then sift_up (length heap) (length heap) (heap ++ (e ∷ []))
      else if A.lt (prob_at heap 0) v
      then sift_down capacity capacity 0 (set heap 0 e)
      else heap

  unfoldable pub select_from : ℕ → ℕ → List F → List (ProbIdx F) → List (ProbIdx F)
  select_from capacity i [] heap = heap
  select_from capacity i (v ∷ vals) heap =
      select_from capacity (suc i) vals (select_step capacity i v heap)

  abbrev pub select_top : ℕ → List F → List (ProbIdx F)
  select_top capacity vals = select_from capacity 0 vals []

  -- Into the sorted part of the array, which is given from its end.
  unfoldable pub insert_back : ProbIdx F → List (ProbIdx F) → List (ProbIdx F)
  insert_back v [] = v ∷ []
  insert_back v (e ∷ es) = if A.lt e.prob v.prob then e ∷ insert_back v es else v ∷ e ∷ es

  unfoldable pub insert_all : List (ProbIdx F) → List (ProbIdx F) → List (ProbIdx F)
  insert_all sorted [] = sorted
  insert_all sorted (v ∷ rest) = insert_all (insert_back v sorted) rest

  unfoldable pub sort_desc :
      (List (ProbIdx F) → List (ProbIdx F)) → List (ProbIdx F) → List (ProbIdx F)
  sort_desc qsort a = if ltb 64 (length a) then qsort a else reverse (insert_all [] a)

  unfoldable pub best_from : ℕ → ℕ → F → List F → ℕ
  best_from i best best_val [] = best
  best_from i best best_val (v ∷ vs) =
      if A.lt best_val v then best_from (suc i) i v vs else best_from (suc i) best best_val vs

  unfoldable pub sample_greedy : List F → ℕ
  sample_greedy logits = best_from 1 0 (get_or logits 0 (A.of_nat 0)) (drop 1 logits)

  -- How often `t` is in the list.
  unfoldable pub occurrences : ℕ → List ℕ → ℕ
  occurrences t [] = 0
  occurrences t (u ∷ us) = (if u == t then 1 else 0) + occurrences t us

  unfoldable pub penalized : SampleParam F → ℕ → F → F
  penalized p count l =
      let zero_f = A.of_nat 0 in
      let scaled =
        if A.le l zero_f then A.times l p.repeat_penalty else A.over l p.repeat_penalty in
      A.minus scaled (
        A.plus (A.times (A.of_nat count) p.frequency_penalty)
          (A.times (A.of_nat (if ltb 0 count then 1 else 0)) p.presence_penalty))

  -- The tokens of the window, after those in `seen`.
  unfoldable pub penalize : SampleParam F → List ℕ → List ℕ → List F → List F
  penalize p seen [] logits = logits
  penalize p seen (t ∷ rest) logits =
      if leb (length logits) t || ltb 0 (occurrences t seen)
      then penalize p (t ∷ seen) rest logits
      else penalize p (t ∷ seen) rest
          (set logits t (penalized p (suc (occurrences t rest)) (get_or logits t (A.of_nat 0))))

  unfoldable pub repeat_penalties : SampleParam F → List ℕ → List F → List F
  repeat_penalties p history logits =
      if (not (A.same p.repeat_penalty (A.of_nat 1))
          || not (A.same p.frequency_penalty (A.of_nat 0))
          || not (A.same p.presence_penalty (A.of_nat 0)))
        && ltb 0 p.repeat_last_n
      then penalize p [] (drop (length history - p.repeat_last_n) history) logits
      else logits

  unfoldable pub max_from : F → F → List F → F
  max_from inv_temp m [] = m
  max_from inv_temp m (l ∷ ls) =
      let v = A.times l inv_temp in max_from inv_temp (if A.lt m v then v else m) ls

  unfoldable pub exponentials : F → F → List F → List F
  exponentials inv_temp max_l logits = map (λ l. A.expf (A.minus (A.times l inv_temp) max_l)) logits

  unfoldable pub sum_from : F → List F → F
  sum_from sum [] = sum
  sum_from sum (v ∷ vs) = sum_from (A.plus sum v) vs

  unfoldable pub softmax : F → List F → List F
  softmax inv_temp logits =
      let first = A.times (get_or logits 0 (A.of_nat 0)) inv_temp in
      exponentials inv_temp (max_from inv_temp first (drop 1 logits)) logits

  unfoldable pub scale_probs : F → List (ProbIdx F) → List (ProbIdx F)
  scale_probs inv_sum pi = map (λ (e : ProbIdx F). record e { prob = A.times e.prob inv_sum }) pi

  unfoldable pub prefix_above : F → List (ProbIdx F) → ℕ
  prefix_above threshold [] = 0
  prefix_above threshold (e ∷ es) =
      if A.le threshold e.prob then suc (prefix_above threshold es) else 0

  unfoldable pub min_p_cutoff : SampleParam F → List (ProbIdx F) → ℕ
  min_p_cutoff p pi =
      let new_cutoff = prefix_above (A.times p.min_p (prob_at pi 0)) pi in
      if A.lt A.default_eps p.min_p && ltb 0 (length pi) && ltb 0 new_cutoff
      then new_cutoff
      else length pi

  -- The shortest prefix whose sum reaches `top_p`, or else all.
  unfoldable pub nucleus : F → F → List (ProbIdx F) → ℕ
  nucleus top_p cum [] = 0
  nucleus top_p cum (e ∷ es) =
      let sum = A.plus cum e.prob in if A.le top_p sum then 1 else suc (nucleus top_p sum es)

  unfoldable pub cutoff_of : SampleParam F → List (ProbIdx F) → ℕ
  cutoff_of p pi =
      let cutoff = min_p_cutoff p pi in
      if A.lt p.top_p (A.of_nat 1) then nucleus p.top_p (A.of_nat 0) (take cutoff pi) else cutoff

  -- The first entry at which the sum passes `r`.
  unfoldable pub draw : F → F → F → List (ProbIdx F) → Option ℕ
  draw r rn_inv cdf [] = none
  draw r rn_inv cdf (e ∷ es) =
      let sum = A.plus cdf (A.times e.prob rn_inv) in
      if A.lt r sum then some e.idx else draw r rn_inv sum es

  unfoldable pub draw_below : F → ℕ → List (ProbIdx F) → ℕ
  draw_below r cutoff pi =
      let kept = take cutoff pi in
      let renorm = sum_from (A.of_nat 0) (map (λ (e : ProbIdx F). e.prob) kept) in
      let rn_inv = if A.lt (A.of_nat 0) renorm then A.over (A.of_nat 1) renorm else A.of_nat 1 in
      drawn_or (get_or pi (cutoff - 1) blank).idx (draw r rn_inv (A.of_nat 0) kept)

  module _ (qsort : List (ProbIdx F) → List (ProbIdx F)) (p : SampleParam F) where
    unfoldable pub candidates : ℕ → List F → F → List (ProbIdx F)
    candidates capacity vals inv_sum =
        scale_probs inv_sum (sort_desc qsort (select_top capacity vals))

    -- The loop over growing capacities: the candidates, and how many of them are kept.
    unfoldable pub select_loop : ℕ → ℕ → List F → F → Option (List (ProbIdx F) × ℕ)
    select_loop zero capacity vals inv_sum = none
    select_loop (suc f) capacity vals inv_sum =
        let n = length vals in
        let pi = candidates capacity vals inv_sum in
        let cutoff = cutoff_of p pi in
        let rest = select_loop f (if ltb (n / 4) capacity then n else capacity * 4) vals inv_sum in
        if ltb 0 p.top_k || ltb cutoff (length pi) || leb n capacity
        then some (pi, cutoff)
        else rest

    -- With the state of the generator: the token and the next state.
    unfoldable pub sample_stochastic : ℕ → List F → Option (ℕ × ℕ)
    sample_stochastic state logits =
        let vals = softmax (A.over (A.of_nat 1) p.temperature) logits in
        let inv_sum = A.over (A.of_nat 1) (sum_from (A.of_nat 0) vals) in
        let first = if ltb 0 p.top_k then p.top_k else 64 in
        let capacity = if ltb (length logits) first then length logits else first in
        Option.map
          (λ (c : List (ProbIdx F) × ℕ). (
            draw_below (rng_float (xorshift state)) (if ltb c.1 1 then 1 else c.1) c.0,
            xorshift state,
          ))
          (select_loop (suc (length logits)) capacity vals inv_sum)

    unfoldable pub sample_token : ℕ → ℕ → List F → List ℕ → Option (ℕ × ℕ)
    sample_token self state logits history =
        let penalized = repeat_penalties p history logits in
        let no_filter = p.top_k == 0 && A.le (A.of_nat 1) p.top_p && A.le p.min_p A.default_eps in
        if A.le p.temperature A.default_eps || no_filter
        then some (sample_greedy penalized, state)
        else sample_stochastic (seeded self state) penalized
