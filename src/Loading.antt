-- ===== src/Loading.antt =====
-- Loading the vocabulary from a model, `src/core.c`. `none` is a process that ends with an error, or
-- a table that is filled for ever.
pub mod Specials
pub mod Bytes
pub mod Loaded
pub mod Pieces
pub mod Names
pub mod ByteIds
pub mod Named
pub mod Exact
use mathlib.Core.Option
use tinyllama_c.Prelude.{
  ℕ, zero, suc, ◌+◌, ◌-◌, ◌^◌, Bool, true, false, ◌&&◌, ◌||◌, not, List, [], ◌∷◌, ◌++◌, Option,
  none, some, ltb, ◌==◌, if◌then◌else◌, length, codes, set, replicate,
}
use tinyllama_c.Vocab.Key.{Key}
use tinyllama_c.Vocab.Table.{TokenizerTable, load_table, tokenizer_table_free}
use tinyllama_c.Vocab.Lookup.{
  Vocab, TokenizerType, tokenizer_none, spm, bpe, wpm, ugm, rwkv, whisper, vocab_id_none,
}
use tinyllama_c.Gguf.Cursor.{Cursor, Reader, ◌>>=◌, return, cursor_at, cursor_u32, cursor_key}
use tinyllama_c.Gguf.Model.{
  Model, ArrayRef, key_streq, read_at, model_get_key, model_get_array, model_get_i32,
}
use tinyllama_c.Loading.Specials.{bos_eos, with_specials, spm_bos, spm_eos, bpe_bos, bpe_eos}
use tinyllama_c.Loading.Bytes.{bpe_byte_ids, spm_byte_ids, typed_byte_ids}

unfoldable pub type_of_name : Key → Option TokenizerType
type_of_name name =
    if key_streq name (codes "llama") || key_streq name (codes "sentencepiece")
    then some spm
    else if key_streq name (codes "gpt2")
    then some bpe
    else if key_streq name (codes "bert")
    then some wpm
    else if key_streq name (codes "unigram")
    then some ugm
    else if key_streq name (codes "rwkv")
    then some rwkv
    else if key_streq name (codes "whisper")
    then some whisper
    else none

unfoldable pub tokenizer_type : Model → Option TokenizerType
tokenizer_type m = Option.bind (model_get_key m (codes "tokenizer.ggml.model")) type_of_name

-- The keys of a string array, in order.
unfoldable pub read_keys : ℕ → Reader (List Key)
read_keys zero = return []
read_keys (suc n) = do key ← cursor_key; keys ← read_keys n; return (key ∷ keys)

-- An array of strings, which has at most `limit` of them.
unfoldable pub string_array : Model → List ℕ → ℕ → Option (List Key)
string_array m name limit = Option.bind (model_get_array m name) (λ a.
    if not (a.type == 8) || ltb limit a.len then none else read_at m a.data_pos (read_keys a.len))

-- Floats as bit patterns, zeros from the first that cannot be read.
unfoldable pub read_floats : ℕ → Cursor → List ℕ
read_floats zero c = []
read_floats (suc n) c =
    let (r, c') = cursor_u32 c in
    elim r [ none ↦ replicate (suc n) 0 | some x ↦ x ∷ read_floats n c' ]

-- `NULL` when the file lacks them.
unfoldable pub read_scores : Model → ℕ → Option (List ℕ)
read_scores m n_vocab = Option.bind (model_get_array m (codes "tokenizer.ggml.scores")) (λ a.
    if a.type == 6 && a.len == n_vocab
    then some (read_floats n_vocab (cursor_at m.map m.size a.data_pos))
    else none)

-- A vocabulary with its tokens and merges, before the special ids.
unfoldable pub bare_vocab :
    TokenizerType → List Key → Option (List ℕ) → TokenizerTable → TokenizerTable → Vocab
bare_vocab type token scores tokens merges = record {
  token = token;
  n_vocab = length token;
  scores = scores;
  bos_id = vocab_id_none;
  eos_id = vocab_id_none;
  user_id = vocab_id_none;
  assistant_id = vocab_id_none;
  think_start_id = vocab_id_none;
  think_end_id = vocab_id_none;
  dsml_id = vocab_id_none;
  im_start_id = vocab_id_none;
  im_end_id = vocab_id_none;
  start_of_turn_id = vocab_id_none;
  end_of_turn_id = vocab_id_none;
  byte_token_ids = replicate 256 vocab_id_none;
  tokenizer_type = type;
  tokens = tokens;
  merges = merges;
}

-- `INT32_MAX`
abbrev pub int32_max : ℕ
int32_max = 2 ^ 31 - 1

unfoldable pub with_byte_ids : List ℕ → Vocab → Vocab
with_byte_ids ids v = record v { byte_token_ids = ids }

-- The special ids, and then the tokens of the bytes.
unfoldable pub finish_bpe : Model → Vocab → Option Vocab
finish_bpe m v = Option.bind (bos_eos m v bpe_bos bpe_eos) (λ ids.
    Option.bind (with_specials v ids.0 ids.1)
      (λ v'. Option.map (λ byte_ids. with_byte_ids byte_ids v') (bpe_byte_ids v')))

unfoldable pub vocab_load_for_bpe : Model → Option Vocab
vocab_load_for_bpe m =
    Option.bind (string_array m (codes "tokenizer.ggml.tokens") int32_max) (λ token.
      Option.bind (string_array m (codes "tokenizer.ggml.merges") (2 ^ 64 - 1)) (λ merge.
        Option.bind (load_table token) (λ tokens.
          Option.bind (load_table merge)
            (λ merges. finish_bpe m (bare_vocab bpe token none tokens merges)))))

-- By the token types where the file has them for every token.
unfoldable pub read_byte_ids : Model → List Key → List ℕ
read_byte_ids m token = elim (model_get_array m (codes "tokenizer.ggml.token_type")) [
  | none ↦ spm_byte_ids 0 token (replicate 256 vocab_id_none)
  | some a ↦
      if a.type == 5 && a.len == length token
      then typed_byte_ids 0 token (cursor_at m.map m.size a.data_pos) (replicate 256 vocab_id_none)
      else spm_byte_ids 0 token (replicate 256 vocab_id_none)
]

unfoldable pub finish_spm : Model → List ℕ → Vocab → Option Vocab
finish_spm m byte_ids v =
    Option.bind (bos_eos m v spm_bos spm_eos)
      (λ ids. Option.map (with_byte_ids byte_ids) (with_specials v ids.0 ids.1))

-- `merges` stays empty.
unfoldable pub vocab_load_for_spm : Model → Option Vocab
vocab_load_for_spm m =
    Option.bind (string_array m (codes "tokenizer.ggml.tokens") int32_max) (λ token.
      Option.bind (load_table token) (λ tokens.
        finish_spm m (read_byte_ids m token) (
          bare_vocab spm token (read_scores m (length token)) tokens
            (tokenizer_table_free tokens))))

unfoldable pub vocab_load : Model → Option Vocab
vocab_load m = Option.bind (tokenizer_type m) (λ type. elim type [
  | spm ↦ vocab_load_for_spm m
  | bpe ↦ vocab_load_for_bpe m
  | tokenizer_none ↦ none
  | wpm ↦ none
  | ugm ↦ none
  | rwkv ↦ none
  | whisper ↦ none
])
