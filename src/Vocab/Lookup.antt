-- ===== src/Vocab/Lookup.antt =====
-- `Vocab` (`src/def.h`) and its look-ups (`src/core.c`). An `i32` is its bit pattern, so the casts
-- between `i32` and `u32` do nothing, and an id is negative from `2 ^ 31` on. Every look-up returns
-- through the outer option: `none` stands for a probe that does not end.
use mathlib.Core.Option
use tinyllama_c.Prelude.{
  ℕ, ◌+◌, ◌-◌, ◌^◌, Bool, ◌||◌, List, [], ◌∷◌, ◌++◌, Option, some, ltb, leb, if◌then◌else◌, length,
  get_or,
}
use tinyllama_c.Vocab.Key.{Key, make_key}
use tinyllama_c.Vocab.Table.{TokenizerTable, tokenizer_table_get}

pub data TokenizerType : Type 0 where
  tokenizer_none spm bpe wpm ugm rwkv whisper : TokenizerType

-- `VOCAB_ID_NONE`, which is also the `-1` of an absent merge.
abbrev pub vocab_id_none : ℕ
vocab_id_none = 2 ^ 32 - 1

abbrev pub is_negative : ℕ → Bool
is_negative id = leb (2 ^ 31) id

-- `scores` are bit patterns of floats.
pub record Vocab : Type 0 where
  pub token : List Key
  pub n_vocab : ℕ
  pub scores : Option (List ℕ)
  pub bos_id : ℕ
  pub eos_id : ℕ
  pub user_id : ℕ
  pub assistant_id : ℕ
  pub think_start_id : ℕ
  pub think_end_id : ℕ
  pub dsml_id : ℕ
  pub im_start_id : ℕ
  pub im_end_id : ℕ
  pub start_of_turn_id : ℕ
  pub end_of_turn_id : ℕ
  pub byte_token_ids : List ℕ
  pub tokenizer_type : TokenizerType
  pub tokens : TokenizerTable
  pub merges : TokenizerTable

-- `text` is a C string without its NUL; the key's length is `(u8) strlen(text)`.
unfoldable pub vocab_try_lookup : Vocab → List ℕ → Option (Option ℕ)
vocab_try_lookup v text = tokenizer_table_get v.tokens (make_key text (length text))

unfoldable pub vocab_lookup : Vocab → List ℕ → Option ℕ
unfolding vocab_try_lookup
vocab_lookup v text = Option.map (λ r. Option.get_or r vocab_id_none) (vocab_try_lookup v text)

unfoldable pub vocab_lookup_len : Vocab → List ℕ → ℕ → Option (Option ℕ)
vocab_lookup_len v text len = tokenizer_table_get v.tokens (make_key text len)

pub out_of_range : Vocab → ℕ → ℕ → Bool
out_of_range v id1 id2 =
    is_negative id1 || is_negative id2 || leb v.n_vocab id1 || leb v.n_vocab id2

unfoldable pub vocab_merge_rank : Vocab → ℕ → ℕ → Option ℕ
unfolding out_of_range
vocab_merge_rank v id1 id2 =
    let t1 = get_or v.token id1 [] in
    let t2 = get_or v.token id2 [] in
    let key_len = length t1 + 1 + length t2 in
    if out_of_range v id1 id2
    then some vocab_id_none
    else if ltb 255 key_len
    then some vocab_id_none
    else Option.map (λ r. Option.get_or r vocab_id_none)
        (tokenizer_table_get v.merges (make_key (t1 ++ b' ' ∷ t2) key_len))

unfoldable pub vocab_merge_result : Vocab → ℕ → ℕ → Option ℕ
unfolding out_of_range vocab_lookup_len
vocab_merge_result v id1 id2 =
    let t1 = get_or v.token id1 [] in
    let t2 = get_or v.token id2 [] in
    let merged_len = length t1 + length t2 in
    if out_of_range v id1 id2
    then some vocab_id_none
    else if ltb 255 merged_len
    then some vocab_id_none
    else Option.map (λ r. Option.get_or r vocab_id_none) (vocab_lookup_len v (t1 ++ t2) merged_len)
