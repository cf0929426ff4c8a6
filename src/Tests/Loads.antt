-- ===== src/Tests/Loads.antt =====
-- A model with a SentencePiece vocabulary of two pieces.
use mathlib.Core.Option
use tinyllama_c.Prelude.{
  ◌≢◌, ◌<◌, get_or, arith, ◌^◌, ℕ, ◌≡◌, refl, List, [], ◌∷◌, ◌++◌, Option, none, some, codes,
  length, replicate, Bool, true, false,
}
use tinyllama_c.Vocab.Key.{Key, key_eq, hash_bytes, make_key}
use tinyllama_c.Vocab.Table.{
  next_pow2, empty_table, tokenizer_table_init, tokenizer_table_free, home, next_index, probe,
  locate, tokenizer_table_put, tokenizer_table_get, put_all, load_table,
}
use tinyllama_c.Vocab.Lookup.{
  Vocab, vocab_try_lookup, vocab_id_none, vocab_lookup_len, vocab_merge_rank, vocab_merge_result,
}
use tinyllama_c.Gguf.Cursor.{
  cursor_at, cursor_has, move, bytes_at, cursor_read, le_value, cursor_u32, cursor_u64, cursor_key,
}
use tinyllama_c.Loading.Bytes.{spm_byte_token_value, spm_hex_digit, note_byte, spm_byte_ids}
use tinyllama_c.Loading.Specials.{first_known, special_id, bos_eos, optional_id, with_specials}
use tinyllama_c.Tokenizer.Lexicon.Loaded.{IsLoaded}
use tinyllama_c.Tokenizer.Lexicon.{lexicon}
use tinyllama_c.Loading.Exact.{file_merges, lexicon-ends}
use tinyllama_c.Gguf.Model.{
  Model, arch_unknown, key_streq, find_kv, model_find_kv, read_at, get_typed, model_get_key,
  position, array_header, model_get_array, model_get_i32,
}
use tinyllama_c.Loading.{
  vocab_load, type_of_name, tokenizer_type, read_keys, string_array, read_scores, bare_vocab,
  with_byte_ids, read_byte_ids, finish_spm, vocab_load_for_spm,
}
use tinyllama_c.Prelude.{get_or}
use tinyllama_c.Loading.ByteIds.{IsNamed, vocab_load_for_spm-IsNamed}
use tinyllama_c.Loading.Names.{Names, decimal}
use tinyllama_c.Loading.Named.{vocab_load_for_spm-Names}
use tinyllama_c.Loading.Loaded.{vocab_load-IsLoaded}
use tinyllama_c.Tests.Sample.{small_vocab}

abbrev string : List ℕ → List ℕ
string s = (length s ∷ replicate 7 0) ++ s

-- At 0 the flavour, at 13 the two tokens, at 48 the ids of both ends.
abbrev file : List ℕ
file =
    string (codes "llama")
    ++ ((8 ∷ 0 ∷ 0 ∷ 0 ∷ 2 ∷ replicate 7 0)
        ++ (string (codes "a")
            ++ (string (codes "<0x61>") ++ (1 ∷ 0 ∷ 0 ∷ 0 ∷ 0 ∷ 0 ∷ 0 ∷ 0 ∷ []))))

abbrev model : Model
model = record {
  map = file;
  size = 56;
  version = 3;
  n_kv = 4;
  n_tensor = 0;
  alignment = 32;
  arch = arch_unknown;
  arch_name = [];
  kv =
      record { key = codes "tokenizer.ggml.model"; type = 8; value_pos = 0 }
      ∷ record { key = codes "tokenizer.ggml.tokens"; type = 9; value_pos = 13 }
      ∷ record { key = codes "tokenizer.ggml.bos_token_id"; type = 4; value_pos = 48 }
      ∷ record { key = codes "tokenizer.ggml.eos_token_id"; type = 4; value_pos = 52 }
      ∷ [];
  tensor = [];
}

abbrev loads : Option Vocab → Bool
loads o = elim o [ none ↦ false | some v ↦ true ]

present : (o : Option Vocab) → loads o ≡ true → o ≡ some (Option.get_or o small_vocab)
present none h = absurd (cc)
present (some v) h = refl

model_run : loads (vocab_load model) ≡ true
unfolding Option.bind make_key key_eq hash_bytes next_pow2 empty_table tokenizer_table_init
    tokenizer_table_free home next_index probe tokenizer_table_put tokenizer_table_get put_all
    load_table locate vocab_try_lookup cursor_at cursor_has move bytes_at cursor_read le_value
    cursor_u32 cursor_u64 cursor_key key_streq find_kv model_find_kv read_at get_typed model_get_key
    position array_header model_get_array model_get_i32 type_of_name tokenizer_type read_keys
    string_array read_scores bare_vocab with_byte_ids read_byte_ids finish_spm vocab_load_for_spm
    vocab_load spm_byte_token_value note_byte spm_byte_ids first_known special_id bos_eos
    optional_id with_specials
model_run = refl

abbrev loaded : Vocab
loaded = Option.get_or (vocab_load_for_spm model) small_vocab

spm_run : loads (vocab_load_for_spm model) ≡ true
unfolding Option.bind make_key key_eq hash_bytes next_pow2 empty_table tokenizer_table_init
    tokenizer_table_free home next_index probe tokenizer_table_put tokenizer_table_get put_all
    load_table locate vocab_try_lookup cursor_at cursor_has move bytes_at cursor_read le_value
    cursor_u32 cursor_u64 cursor_key key_streq find_kv model_find_kv read_at get_typed model_get_key
    position array_header model_get_array model_get_i32 type_of_name tokenizer_type read_keys
    string_array read_scores bare_vocab with_byte_ids read_byte_ids finish_spm vocab_load_for_spm
    vocab_load spm_byte_token_value note_byte spm_byte_ids first_known special_id bos_eos
    optional_id with_specials
spm_run = refl

-- The piece `<0x61>` is the token of its byte.
spm_byte_id : get_or loaded.byte_token_ids 0x61 0 ≡ 1
unfolding spm_hex_digit Option.bind make_key key_eq hash_bytes next_pow2 empty_table
    tokenizer_table_init tokenizer_table_free home next_index probe tokenizer_table_put
    tokenizer_table_get put_all load_table locate vocab_try_lookup cursor_at cursor_has move
    bytes_at cursor_read le_value cursor_u32 cursor_u64 cursor_key key_streq find_kv model_find_kv
    read_at get_typed model_get_key position array_header model_get_array model_get_i32 type_of_name
    tokenizer_type read_keys string_array read_scores bare_vocab with_byte_ids read_byte_ids
    finish_spm vocab_load_for_spm vocab_load spm_byte_token_value note_byte spm_byte_ids first_known
    special_id bos_eos optional_id with_specials
spm_byte_id = refl

loaded_tokens : loaded.token ≡ codes "a" ∷ codes "<0x61>" ∷ []
unfolding spm_hex_digit Option.bind make_key key_eq hash_bytes next_pow2 empty_table
    tokenizer_table_init tokenizer_table_free home next_index probe tokenizer_table_put
    tokenizer_table_get put_all load_table locate vocab_try_lookup cursor_at cursor_has move
    bytes_at cursor_read le_value cursor_u32 cursor_u64 cursor_key key_streq find_kv model_find_kv
    read_at get_typed model_get_key position array_header model_get_array model_get_i32 type_of_name
    tokenizer_type read_keys string_array read_scores bare_vocab with_byte_ids read_byte_ids
    finish_spm vocab_load_for_spm vocab_load spm_byte_token_value note_byte spm_byte_ids first_known
    special_id bos_eos optional_id with_specials
loaded_tokens = refl

no_types : model_get_array model (codes "tokenizer.ggml.token_type") ≡ none
unfolding spm_hex_digit Option.bind make_key key_eq hash_bytes next_pow2 empty_table
    tokenizer_table_init tokenizer_table_free home next_index probe tokenizer_table_put
    tokenizer_table_get put_all load_table locate vocab_try_lookup cursor_at cursor_has move
    bytes_at cursor_read le_value cursor_u32 cursor_u64 cursor_key key_streq find_kv model_find_kv
    read_at get_typed model_get_key position array_header model_get_array model_get_i32 type_of_name
    tokenizer_type read_keys string_array read_scores bare_vocab with_byte_ids read_byte_ids
    finish_spm vocab_load_for_spm vocab_load spm_byte_token_value note_byte spm_byte_ids first_known
    special_id bos_eos optional_id with_specials
no_types = refl

no_merges : file_merges model ≡ none
unfolding spm_hex_digit Option.bind make_key key_eq hash_bytes next_pow2 empty_table
    tokenizer_table_init tokenizer_table_free home next_index probe tokenizer_table_put
    tokenizer_table_get put_all load_table locate vocab_try_lookup cursor_at cursor_has move
    bytes_at cursor_read le_value cursor_u32 cursor_u64 cursor_key key_streq find_kv model_find_kv
    read_at get_typed model_get_key position array_header model_get_array model_get_i32 type_of_name
    tokenizer_type read_keys string_array read_scores bare_vocab with_byte_ids read_byte_ids
    finish_spm vocab_load_for_spm vocab_load spm_byte_token_value note_byte spm_byte_ids first_known
    special_id bos_eos optional_id with_specials
no_merges = refl

letter_a : Names (codes "<0x61>") 97
letter_a = record {
  high = 54;
  low = 49;
  high_digit = 6;
  low_digit = 1;
  spelled = refl;
  high_value = decimal 6 (omega arith);
  low_value = decimal 1 (omega arith);
  value = omega arith;
}

vocab_load_for_spm-Names_example : get_or loaded.byte_token_ids 97 vocab_id_none ≢ vocab_id_none
vocab_load_for_spm-Names_example =
    vocab_load_for_spm-Names model loaded 1 97 (present (vocab_load_for_spm model) spm_run) no_types
      (rw loaded_tokens (omega arith)) (rw loaded_tokens (omega arith)) (rw loaded_tokens letter_a)

vocab_load_for_spm-IsNamed_example : IsNamed loaded.token loaded.byte_token_ids
vocab_load_for_spm-IsNamed_example =
    vocab_load_for_spm-IsNamed model loaded (present (vocab_load_for_spm model) spm_run)

vocab_load-IsLoaded_example : IsLoaded (Option.get_or (vocab_load model) small_vocab)
vocab_load-IsLoaded_example =
    vocab_load-IsLoaded model (Option.get_or (vocab_load model) small_vocab)
      (present (vocab_load model) model_run)

few_merges : (merge : List Key) → file_merges model ≡ some merge → length merge < 2 ^ 31
few_merges merge h = absurd (cc no_merges)

lexicon-ends_example :
    ((text : List ℕ) (len : ℕ)
      → vocab_lookup_len (Option.get_or (vocab_load model) small_vocab) text len
        ≡ some ((lexicon (Option.get_or (vocab_load model) small_vocab)).lookup_len text len))
    × ((a b : ℕ)
        → vocab_merge_rank (Option.get_or (vocab_load model) small_vocab) a b
          ≡ some ((lexicon (Option.get_or (vocab_load model) small_vocab)).merge_rank a b))
    × ((a b : ℕ)
        → vocab_merge_result (Option.get_or (vocab_load model) small_vocab) a b
          ≡ some ((lexicon (Option.get_or (vocab_load model) small_vocab)).merge_result a b))
lexicon-ends_example =
    lexicon-ends model (Option.get_or (vocab_load model) small_vocab)
      (present (vocab_load model) model_run) few_merges

byte_piece_run : spm_byte_token_value (codes "<0x4f>") ≡ some 79
unfolding spm_byte_token_value spm_hex_digit Option.bind
byte_piece_run = refl
