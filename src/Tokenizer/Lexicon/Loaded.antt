-- ===== src/Tokenizer/Lexicon/Loaded.antt =====
-- The vocabulary of a loaded token table answers look-ups by its token list: ids name their pieces,
-- and a merge names the concatenation of its parts.
use mathlib.Core.Option
use native.Mathlib.Nat.{sub-zero}
use tinyllama_c.Prelude.{
  ℕ, ◌+◌, ◌%◌, ◌^◌, ◌≤◌, ◌<◌, ◌≡◌, ◌≢◌, inl, inr, List, [], ◌++◌, some, length, get_or, arith,
  Option-cases, length-append, take-all,
}
use tinyllama_c.Vocab.Key.{Key, make_key}
use tinyllama_c.Vocab.Table.{tokenizer_table_get, load_table}
use tinyllama_c.Vocab.Table.Load.{last_index, last_index_sound, load_table-reads}
use tinyllama_c.Vocab.Lookup.{
  vocab_lookup, Vocab, vocab_id_none, vocab_lookup_len, vocab_merge_result,
}
use tinyllama_c.Tokenizer.Lexicon.{lexicon}

pub make_key_lem : (text : List ℕ) → length text ≤ 255 → make_key text (length text) ≡ text
unfolding make_key
make_key_lem text h =
    let e : length text % 2 ^ 8 ≡ length text = omega arith in
    rw e (take-all (length text) text (omega arith))

-- The token table is the one that the loaders build from the token list.
pub record IsLoaded (v : Vocab) : Type 0 where
  pub count : v.n_vocab ≡ length v.token
  pub small : length v.token < 2 ^ 31
  pub table : load_table v.token ≡ some v.tokens

-- The piece of an id.
abbrev pub token_piece : Vocab → ℕ → List ℕ
token_piece v id = get_or v.token id []

module _ {v : Vocab} (loaded : IsLoaded v) where
  table_get : (q : Key) → tokenizer_table_get v.tokens q ≡ some (last_index q 0 v.token)
  table_get q =
      let (t, run, valid, reads) = load_table-reads v.token loaded.small in
      let same : t ≡ v.tokens = cc (run, loaded.table) in rw same at (reads q)

  -- A look-up by length returns an id of the vocabulary whose piece is the text that was looked up.
  pub vocab_lookup_len-piece :
      (text : List ℕ) (len id : ℕ)
      → vocab_lookup_len v text len ≡ some (some id)
      → (token_piece v id ≡ make_key text len) × (id < v.n_vocab)
  unfolding vocab_lookup_len
  vocab_lookup_len-piece text len id h =
      let key = make_key text len in
      let found : last_index key 0 v.token ≡ some id = ground (arith, table_get key) in
      let (_, at, lt) = last_index_sound key v.token 0 id found in
      (rw sub-zero at at, omega (arith, loaded.count))

  -- A merge that the vocabulary knows makes the token whose piece is the two pieces joined.
  pub merge_result-joins :
      (a b : ℕ)
      → (lexicon v).merge_result a b ≢ vocab_id_none
      → token_piece v ((lexicon v).merge_result a b) ≡ token_piece v a ++ token_piece v b
  unfolding lexicon vocab_merge_result
  merge_result-joins a b h =
      let t1 = token_piece v a in
      let t2 = token_piece v b in
      let key = make_key (t1 ++ t2) (length t1 + length t2) in
      let spelled : length t1 + length t2 ≤ 255 → key ≡ t1 ++ t2 = λ short.
        rw (← length-append t1 t2) (make_key_lem (t1 ++ t2) (omega (arith, length-append t1 t2))) in
      elim (Option-cases (last_index key 0 v.token)) [
        | inl e ↦ absurd (h (ground (arith, table_get key)))
        | inr (j, e) ↦
            let (_, at, lt) = last_index_sound key v.token 0 j e in
            let at' : token_piece v j ≡ key = rw sub-zero at at in ground (arith, table_get key)
      ]

  -- A look-up of a text always ends.
  pub vocab_lookup-total : (text : List ℕ) → (id : ℕ) × (vocab_lookup v text ≡ some id)
  unfolding vocab_lookup
  vocab_lookup-total text = (
    Option.get_or (last_index (make_key text (length text)) 0 v.token) vocab_id_none,
    ground (arith, table_get (make_key text (length text))),
  )
