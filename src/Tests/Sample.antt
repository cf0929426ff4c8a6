-- ===== src/Tests/Sample.antt =====
-- A small vocabulary for the tests, loaded as `src/core.c` loads one.
use tinyllama_c.Prelude.{◌≡◌, refl, List, [], ◌∷◌, ◌++◌, some, arith, codes, replicate}
use tinyllama_c.Vocab.Key.{Key}
use tinyllama_c.Vocab.Table.{TokenizerTable, load_table, tokenizer_table_get, tokenizer_table_free}
use tinyllama_c.Vocab.Table.Valid.{IsValid}
use tinyllama_c.Vocab.Table.Load.{last_index, load_table-reads}
use tinyllama_c.Vocab.Lookup.{Vocab, spm, vocab_id_none}
use tinyllama_c.Tokenizer.Lexicon.Loaded.{IsLoaded}

-- A vocabulary of two pieces and their merge.
abbrev pub two_pieces : List Key
two_pieces = codes "a" ∷ codes "b" ∷ codes "ab" ∷ []

pub tokens_table :
    (t : TokenizerTable) × (load_table two_pieces ≡ some t)
    × IsValid t
    × ((q : Key) → tokenizer_table_get t q ≡ some (last_index q 0 two_pieces))
tokens_table = load_table-reads two_pieces (omega arith)

abbrev pub small_vocab : Vocab
small_vocab = record {
  token = two_pieces;
  n_vocab = 3;
  scores = some (0 ∷ 0 ∷ 1 ∷ []);
  bos_id = 0;
  eos_id = 0;
  user_id = 0;
  assistant_id = 0;
  think_start_id = 0;
  think_end_id = 0;
  dsml_id = 0;
  im_start_id = 0;
  im_end_id = 0;
  start_of_turn_id = 0;
  end_of_turn_id = 0;
  byte_token_ids = replicate 97 vocab_id_none ++ (0 ∷ 1 ∷ []);
  tokenizer_type = spm;
  tokens = tokens_table.0;
  merges = tokenizer_table_free tokens_table.0;
}

pub small_vocab-IsLoaded : IsLoaded small_vocab
small_vocab-IsLoaded = record { count = refl; small = omega arith; table = tokens_table.1 }
