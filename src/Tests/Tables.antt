-- ===== src/Tests/Tables.antt =====
-- Token tables of `src/core.c` with three keys, one of them twice.
use mathlib.Core.Option.{or_else}
use tinyllama_c.Prelude.{◌≡◌, List, [], ◌∷◌, some, arith}
use tinyllama_c.Vocab.Key.{Key, key_eq}
use tinyllama_c.Vocab.Table.{
  TokenizerTable, empty_table, tokenizer_table_put, tokenizer_table_get, load_table,
}
use tinyllama_c.Vocab.Table.Valid.{IsValid}
use tinyllama_c.Vocab.Table.Write.{
  Writes, view, tokenizer_table_put-Writes, tokenizer_table_get-view,
}
use tinyllama_c.Vocab.Table.Load.{last_index, load_table-reads, empty_table-IsValid}

abbrev keys : List Key
keys = (b'a' ∷ []) ∷ (b'b' ∷ b'c' ∷ []) ∷ (b'a' ∷ []) ∷ []

load_table_example :
    (t : TokenizerTable) × (load_table keys ≡ some t)
    × IsValid t
    × ((q : Key) → tokenizer_table_get t q ≡ some (last_index q 0 keys))
load_table_example = load_table-reads keys (omega arith)

last_index_run : last_index (b'a' ∷ []) 0 keys ≡ some 2
unfolding last_index key_eq or_else
last_index_run = ground arith

tokenizer_table_put_example :
    (t' : TokenizerTable) × (tokenizer_table_put (empty_table 16) (b'a' ∷ []) 7 ≡ some t')
    × Writes (empty_table 16) (b'a' ∷ []) 7 t'
tokenizer_table_put_example =
    tokenizer_table_put-Writes (empty_table-IsValid 4) (b'a' ∷ []) 7
      (unfold empty_table in omega arith)

tokenizer_table_get_example :
    tokenizer_table_get (empty_table 16) (b'a' ∷ []) ≡ some (view (empty_table 16) (b'a' ∷ []))
tokenizer_table_get_example = tokenizer_table_get-view (empty_table-IsValid 4) (b'a' ∷ [])
