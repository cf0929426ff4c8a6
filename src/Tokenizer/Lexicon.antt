-- ===== src/Tokenizer/Lexicon.antt =====
-- What the tokenizer asks of a `Vocab`, and how the vocabulary of `src/core.c` answers.
pub mod Loaded
use mathlib.Core.Option
use tinyllama_c.Prelude.{ℕ, List, Option, get_or}
use tinyllama_c.Vocab.Lookup.{
  Vocab, vocab_id_none, vocab_lookup, vocab_lookup_len, vocab_merge_rank, vocab_merge_result,
}

-- Ids and ranks are bit patterns of `i32`, with `vocab_id_none` for -1.
pub record Lexicon : Type 0 where
  pub lookup : List ℕ → Option ℕ
  pub lookup_len : List ℕ → ℕ → Option ℕ
  pub merge_rank : ℕ → ℕ → ℕ
  pub merge_result : ℕ → ℕ → ℕ
  pub byte_token_id : ℕ → ℕ

or_none : Option ℕ → ℕ
or_none r = Option.get_or r vocab_id_none

-- A look-up whose probe does not end is read as a miss; in a vocabulary that loads, with merges that
-- leave room in their table, there is none (Loading/Exact).
unfoldable pub lexicon : Vocab → Lexicon
unfolding or_none
lexicon v = record {
  lookup = λ text. vocab_lookup v text;
  lookup_len = λ text len. Option.get_or (vocab_lookup_len v text len) Option.none;
  merge_rank = λ a b. or_none (vocab_merge_rank v a b);
  merge_result = λ a b. or_none (vocab_merge_result v a b);
  byte_token_id = λ b. get_or v.byte_token_ids b vocab_id_none;
}
