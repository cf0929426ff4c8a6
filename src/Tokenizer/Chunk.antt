-- ===== src/Tokenizer/Chunk.antt =====
-- `bpe_encode_chunk` of `src/tokenizer.c`: byte tokens, then greedy merges by rank.
pub mod Best
pub mod Merge
use tinyllama_c.Prelude.{
  ℕ, zero, suc, ◌+◌, ◌-◌, ◌^◌, Bool, true, false, not, ◌&&◌, List, [], ◌∷◌, Option, none, some, ltb,
  ◌==◌, if◌then◌else◌, length, get_or, take,
}
use tinyllama_c.Vocab.Lookup.{vocab_id_none, is_negative}
use tinyllama_c.Tokenizer.Lexicon.{Lexicon}

-- `u32 syms[512]`
abbrev pub max_syms : ℕ
max_syms = 512

-- `syms[i] = merged`, and the `memmove` that closes the gap.
unfoldable pub merge_at : List ℕ → ℕ → ℕ → List ℕ
merge_at [] i merged = []
merge_at (x ∷ []) zero merged = merged ∷ []
merge_at (x ∷ y ∷ ys) zero merged = merged ∷ ys
merge_at (x ∷ xs) (suc i) merged = x ∷ merge_at xs i merged

module _ (lex : Lexicon) where
  -- The first loop: `room` is what is left of `syms`; a byte with no token is passed over.
  unfoldable pub byte_symbols : ℕ → List ℕ → List ℕ
  byte_symbols room [] = []
  byte_symbols zero (b ∷ bs) = []
  byte_symbols (suc room) (b ∷ bs) = elim (is_negative (lex.byte_token_id b)) [
    | true ↦ byte_symbols (suc room) bs
    | false ↦ lex.byte_token_id b ∷ byte_symbols room bs
  ]

  -- The inner `for`: `x` is `syms[i]`, and the best index so far is `none` for -1.
  unfoldable pub scan_ranks : ℕ → List ℕ → ℕ → ℕ → Option ℕ → Option ℕ
  scan_ranks x [] i best_rank best_idx = best_idx
  scan_ranks x (y ∷ ys) i best_rank best_idx =
      let rank = lex.merge_rank x y in
      let better = not (is_negative rank) && ltb rank best_rank in
      scan_ranks y ys (i + 1) (if better then rank else best_rank)
        (if better then some i else best_idx)

  -- `INT32_MAX`
  unfoldable pub best_pair : List ℕ → Option ℕ
  unfolding scan_ranks
  best_pair [] = none
  best_pair (x ∷ xs) = scan_ranks x xs 0 (2 ^ 31 - 1) none

  -- One round of `while (n > 1)`; `none` is the `break`, and the end of the loop.
  unfoldable pub merge_step : List ℕ → Option (List ℕ)
  merge_step syms = elim (best_pair syms) [
    | none ↦ none
    | some i ↦
        let merged = lex.merge_result (get_or syms i 0) (get_or syms (suc i) 0) in
        if merged == vocab_id_none then none else some (merge_at syms i merged)
  ]

  unfoldable pub merge_loop : ℕ → List ℕ → List ℕ
  merge_loop zero syms = syms
  merge_loop (suc f) syms = elim (merge_step syms) [ none ↦ syms | some s ↦ merge_loop f s ]

  -- Each round removes a symbol, so their number is fuel enough.
  unfoldable pub bpe_encode_chunk : List ℕ → ℕ → List ℕ
  bpe_encode_chunk chunk max_out =
      let syms = byte_symbols max_syms chunk in take max_out (merge_loop (length syms) syms)
