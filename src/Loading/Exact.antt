-- ===== src/Loading/Exact.antt =====
-- In a vocabulary that loads, the probes of the look-ups of `src/core.c` end.
use mathlib.Core.Option
use tinyllama_c.Prelude.{
  ℕ, ◌+◌, ◌-◌, ◌<◌, ◌^◌, ◌≡◌, refl, ◌∙◌, ap, sym, Bool, true, false, List, Option, none, some,
  if◌then◌else◌, length, codes, get_or, ltb, [], ◌∷◌, ◌++◌, bind-inv,
}
use tinyllama_c.Vocab.Key.{Key, make_key}
use tinyllama_c.Vocab.Table.{TokenizerTable, tokenizer_table_get, tokenizer_table_free, load_table}
use tinyllama_c.Vocab.Table.Load.{last_index, load_table-reads}
use tinyllama_c.Vocab.Lookup.{
  Vocab, TokenizerType, tokenizer_none, spm, bpe, wpm, ugm, rwkv, whisper, vocab_id_none,
  vocab_lookup_len, vocab_merge_rank, vocab_merge_result, out_of_range,
}
use tinyllama_c.Gguf.Model.{Model}
use tinyllama_c.Tokenizer.Lexicon.{lexicon}
use tinyllama_c.Loading.{
  string_array, bare_vocab, int32_max, vocab_load_for_bpe, vocab_load_for_spm, vocab_load,
  tokenizer_type, read_scores, read_byte_ids,
}
use tinyllama_c.Loading.Loaded.{finish_bpe-Keeps, finish_spm-Keeps, vocab_load-IsLoaded}

-- Every probe of the table ends.
abbrev pub Ends : TokenizerTable → Type 0
Ends t = (q : Key) → (r : Option ℕ) × (tokenizer_table_get t q ≡ some r)

loaded-Ends :
    (keys : List Key) (t : TokenizerTable)
    → length keys < 2 ^ 31
    → load_table keys ≡ some t
    → Ends t
loaded-Ends keys t small run q =
    let (u, made, valid, reads) = load_table-reads keys small in
    let same : u ≡ t = Option.some-injective _ _ (sym made ∙ run) in
    (last_index q 0 keys, ap (λ w. tokenizer_table_get w q) (sym same) ∙ reads q)

freed-Ends : (t : TokenizerTable) → Ends (tokenizer_table_free t)
unfolding tokenizer_table_free tokenizer_table_get
freed-Ends t q = (none, refl)

-- The merges of a file.
abbrev pub file_merges : Model → Option (List Key)
file_merges m = string_array m (codes "tokenizer.ggml.merges") (2 ^ 64 - 1)

bpe_merges-Ends :
    (m : Model) (v : Vocab)
    → ((merge : List Key) → file_merges m ≡ some merge → length merge < 2 ^ 31)
    → vocab_load_for_bpe m ≡ some v
    → Ends v.merges
unfolding vocab_load_for_bpe bare_vocab
bpe_merges-Ends m v few h =
    let (token, e₁, h₁) =
      bind-inv (string_array m (codes "tokenizer.ggml.tokens") int32_max) _ v h in
    let (merge, e₂, h₂) = bind-inv (file_merges m) _ v h₁ in
    let (tokens, e₃, h₃) = bind-inv (load_table token) _ v h₂ in
    let (merges, e₄, h₄) = bind-inv (load_table merge) _ v h₃ in
    let v₀ = bare_vocab bpe token none tokens merges in
    let same : v.merges ≡ merges = (finish_bpe-Keeps m v₀ v h₄).merges in
    rw same (loaded-Ends merge merges (few merge e₂) e₄)

spm_merges-Ends : (m : Model) (v : Vocab) → vocab_load_for_spm m ≡ some v → Ends v.merges
unfolding vocab_load_for_spm bare_vocab
spm_merges-Ends m v h =
    let (token, e₁, h₁) =
      bind-inv (string_array m (codes "tokenizer.ggml.tokens") int32_max) _ v h in
    let (tokens, e₂, h₂) = bind-inv (load_table token) _ v h₁ in
    let v₀ =
      bare_vocab spm token (read_scores m (length token)) tokens (tokenizer_table_free tokens) in
    let same : v.merges ≡ tokenizer_table_free tokens =
      (finish_spm-Keeps m (read_byte_ids m token) v₀ v h₂).merges in
    rw same (freed-Ends tokens)

merges-Ends :
    (m : Model) (v : Vocab)
    → ((merge : List Key) → file_merges m ≡ some merge → length merge < 2 ^ 31)
    → vocab_load m ≡ some v
    → Ends v.merges
unfolding vocab_load
merges-Ends m v few h = let (type, e, r) = bind-inv (tokenizer_type m) _ v h in by_type type r
  where
    by_type :
        (type : TokenizerType)
        → elim type [
          | spm ↦ vocab_load_for_spm m
          | bpe ↦ vocab_load_for_bpe m
          | tokenizer_none ↦ none
          | wpm ↦ none
          | ugm ↦ none
          | rwkv ↦ none
          | whisper ↦ none
        ]
          ≡ some v
        → Ends v.merges
    by_type spm r = spm_merges-Ends m v r
    by_type bpe r = bpe_merges-Ends m v few r
    by_type tokenizer_none r = absurd (cc)
    by_type wpm r = absurd (cc)
    by_type ugm r = absurd (cc)
    by_type rwkv r = absurd (cc)
    by_type whisper r = absurd (cc)

-- What is read is what was returned.
read_back {ℓ} :
    {A : Type ℓ} (o : Option A) (d : A) → (r : A) × (o ≡ some r) → o ≡ some (Option.get_or o d)
read_back o d (r, e) = rw e refl

after_tests :
    (p q : Bool) (x y : ℕ) (o : Option ℕ)
    → (r : ℕ) × (o ≡ some r)
    → (r : ℕ) × ((if p then some x else if q then some y else o) ≡ some r)
after_tests true q x y o h = (x, refl)
after_tests false true x y o h = (y, refl)
after_tests false false x y o h = h

or_none-ends :
    (o : Option (Option ℕ))
    → (r : Option ℕ) × (o ≡ some r)
    → (r : ℕ) × (Option.map (λ r. Option.get_or r vocab_id_none) o ≡ some r)
or_none-ends o (r, e) =
    (Option.get_or r vocab_id_none, ap (Option.map (λ r. Option.get_or r vocab_id_none)) e)

module _ (v : Vocab) (tokens : Ends v.tokens) (merges : Ends v.merges) where
  merge_rank-ends : (a b : ℕ) → (r : ℕ) × (vocab_merge_rank v a b ≡ some r)
  unfolding vocab_merge_rank
  merge_rank-ends a b =
      let t₁ = get_or v.token a [] in
      let t₂ = get_or v.token b [] in
      let len = length t₁ + 1 + length t₂ in
      after_tests (out_of_range v a b) (ltb 255 len) vocab_id_none vocab_id_none _
        (or_none-ends (tokenizer_table_get v.merges (make_key (t₁ ++ b' ' ∷ t₂) len)) (merges _))

  merge_result-ends : (a b : ℕ) → (r : ℕ) × (vocab_merge_result v a b ≡ some r)
  unfolding vocab_merge_result vocab_lookup_len
  merge_result-ends a b =
      let t₁ = get_or v.token a [] in
      let t₂ = get_or v.token b [] in
      let len = length t₁ + length t₂ in
      after_tests (out_of_range v a b) (ltb 255 len) vocab_id_none vocab_id_none _
        (or_none-ends (tokenizer_table_get v.tokens (make_key (t₁ ++ t₂) len)) (tokens _))

  lookup_len-ends :
      (text : List ℕ) (len : ℕ) → (r : Option ℕ) × (vocab_lookup_len v text len ≡ some r)
  unfolding vocab_lookup_len
  lookup_len-ends text len = tokens _

-- In a vocabulary that loads, from a file of fewer than 2^31 merges where it has any: no probe of a
-- look-up or of a merge goes round for ever, and the tokenizer is told what the look-up returns.
pub lexicon-ends :
    (m : Model) (v : Vocab)
    → vocab_load m ≡ some v
    → ((merge : List Key) → file_merges m ≡ some merge → length merge < 2 ^ 31)
    → ((text : List ℕ) (len : ℕ)
        → vocab_lookup_len v text len ≡ some ((lexicon v).lookup_len text len))
      × ((a b : ℕ) → vocab_merge_rank v a b ≡ some ((lexicon v).merge_rank a b))
      × ((a b : ℕ) → vocab_merge_result v a b ≡ some ((lexicon v).merge_result a b))
unfolding lexicon
lexicon-ends m v h few =
    let loaded = vocab_load-IsLoaded m v h in
    let tokens = loaded-Ends v.token v.tokens loaded.small loaded.table in
    let merges = merges-Ends m v few h in
    (
      λ text len. read_back _ _ (lookup_len-ends v tokens merges text len),
      λ a b. read_back _ _ (merge_rank-ends v tokens merges a b),
      λ a b. read_back _ _ (merge_result-ends v tokens merges a b),
    )
