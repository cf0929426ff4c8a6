-- ===== src/Loading/Loaded.antt =====
-- The token list and the token table of a vocabulary that `src/core.c` loads.
use mathlib.Core.Option
use tinyllama_c.Prelude.{
  ℕ, zero, suc, ◌-◌, ◌^◌, ◌≤◌, ◌≡◌, refl, ◌∙◌, ap, sym, inl, inr, Bool, false, not, ◌||◌, List,
  none, some, ltb, ◌==◌, length, arith, codes, Bool-cases, bind-inv, map-inv,
}
use tinyllama_c.Vocab.Key.{Key}
use tinyllama_c.Vocab.Table.{load_table, tokenizer_table_free}
use tinyllama_c.Vocab.Lookup.{
  Vocab, TokenizerType, tokenizer_none, spm, bpe, wpm, ugm, rwkv, whisper,
}
use tinyllama_c.Tokenizer.Lexicon.Loaded.{IsLoaded}
use tinyllama_c.Gguf.Cursor.{Cursor, cursor_at, cursor_key}
use tinyllama_c.Gguf.Model.{Model, read_at, model_get_array}
use tinyllama_c.Gguf.Model.Metadata.{>>=-inv}
use tinyllama_c.Loading.Specials.{with_specials, bos_eos, spm_bos, spm_eos, bpe_bos, bpe_eos}
use tinyllama_c.Loading.Bytes.{bpe_byte_ids}
use tinyllama_c.Loading.{
  read_keys, string_array, bare_vocab, int32_max, vocab_load_for_bpe, vocab_load_for_spm,
  read_scores, read_byte_ids, tokenizer_type, vocab_load, finish_bpe, finish_spm, with_byte_ids,
}

read_keys-length :
    (n : ℕ) (c c' : Cursor) (keys : List Key) → read_keys n c ≡ (some keys, c') → length keys ≡ n
unfolding read_keys
read_keys-length zero c c' keys e = ap length (sym (Option.some-injective _ _ (ap (λ p. p.0) e)))
read_keys-length (suc n) c c' keys e =
    let (key, c₁, e₁, r₁) = >>=-inv cursor_key _ c c' keys e in
    let (rest, c₂, e₂, r₂) = >>=-inv (read_keys n) _ c₁ c' keys r₁ in
    let made = Option.some-injective _ _ (ap (λ p. p.0) r₂) in
    ap length (sym made) ∙ ap suc (read_keys-length n c₁ c₂ rest e₂)

string_array-length :
    (m : Model) (name : List ℕ) (limit : ℕ) (keys : List Key)
    → string_array m name limit ≡ some keys
    → length keys ≤ limit
unfolding string_array read_at
string_array-length m name limit keys h =
    let (a, e, r) = bind-inv (model_get_array m name) _ keys h in
    elim (Bool-cases (not (a.type == 8) || ltb limit a.len)) [
      | inl bad ↦ absurd (not_some (rw bad at r))
      | inr good ↦
          let read = rw good at r in
          let c = cursor_at m.map m.size a.data_pos in
          let len =
            read_keys-length a.len c ((read_keys a.len c).1) keys
              (ap (λ o. (o, (read_keys a.len c).1)) read) in
          omega (arith, len, within a.len (not (a.type == 8)) good)
    ]
  where
    not_some : {A : Type 0} {a : A} → none ≡ some a → ⊥
    not_some e = cc

    within : (len : ℕ) (b : Bool) → (b || ltb limit len) ≡ false → len ≤ limit
    within len b e = ground arith

-- The special ids leave the tokens and their table.
pub record Keeps (v v' : Vocab) : Type 0 where
  pub token : v'.token ≡ v.token
  pub n_vocab : v'.n_vocab ≡ v.n_vocab
  pub tokens : v'.tokens ≡ v.tokens
  pub merges : v'.merges ≡ v.merges

with_specials-Keeps : (v v' : Vocab) (bos eos : ℕ) → with_specials v bos eos ≡ some v' → Keeps v v'
unfolding with_specials
with_specials-Keeps v v' bos eos h =
    let (a₁, e₁, h₁) = bind-inv _ _ v' h in
    let (a₂, e₂, h₂) = bind-inv _ _ v' h₁ in
    let (a₃, e₃, h₃) = bind-inv _ _ v' h₂ in
    let (a₄, e₄, h₄) = bind-inv _ _ v' h₃ in
    let (a₅, e₅, h₅) = bind-inv _ _ v' h₄ in
    let (a₆, e₆, h₆) = bind-inv _ _ v' h₅ in
    let (a₇, e₇, h₇) = bind-inv _ _ v' h₆ in
    let (a₈, e₈, h₈) = bind-inv _ _ v' h₇ in
    let (a₉, e₉, made) = map-inv _ _ v' h₈ in
    record {
      token = ap (λ x. x.token) (sym made);
      n_vocab = ap (λ x. x.n_vocab) (sym made);
      tokens = ap (λ x. x.tokens) (sym made);
      merges = ap (λ x. x.merges) (sym made);
    }

built :
    (v v' : Vocab) (token : List Key)
    → v.token ≡ token
    → v.n_vocab ≡ length token
    → length token ≤ int32_max
    → load_table token ≡ some v.tokens
    → Keeps v v'
    → IsLoaded v'
built v v' token same count small table keeps =
    let all : v'.token ≡ token = keeps.token ∙ same in
    record {
      count = keeps.n_vocab ∙ count ∙ ap length (sym all);
      small = omega (arith, ap length all);
      table = ap load_table all ∙ table ∙ ap some (sym keeps.tokens);
    }

pub finish_bpe-Keeps : (m : Model) (v v' : Vocab) → finish_bpe m v ≡ some v' → Keeps v v'
unfolding finish_bpe with_byte_ids
finish_bpe-Keeps m v v' h =
    let (ids, e₁, h₁) = bind-inv (bos_eos m v bpe_bos bpe_eos) _ v' h in
    let (mid, e₂, h₂) = bind-inv (with_specials v ids.0 ids.1) _ v' h₁ in
    let (byte_ids, e₃, made) = map-inv (bpe_byte_ids mid) _ v' h₂ in
    let k = with_specials-Keeps v mid ids.0 ids.1 e₂ in
    record {
      token = ap (λ x. x.token) (sym made) ∙ k.token;
      n_vocab = ap (λ x. x.n_vocab) (sym made) ∙ k.n_vocab;
      tokens = ap (λ x. x.tokens) (sym made) ∙ k.tokens;
      merges = ap (λ x. x.merges) (sym made) ∙ k.merges;
    }

pub finish_spm-Keeps :
    (m : Model) (byte_ids : List ℕ) (v v' : Vocab) → finish_spm m byte_ids v ≡ some v' → Keeps v v'
unfolding finish_spm with_byte_ids
finish_spm-Keeps m byte_ids v v' h =
    let (ids, e₁, h₁) = bind-inv (bos_eos m v spm_bos spm_eos) _ v' h in
    let (mid, e₂, made) = map-inv (with_specials v ids.0 ids.1) _ v' h₁ in
    let k = with_specials-Keeps v mid ids.0 ids.1 e₂ in
    record {
      token = ap (λ x. x.token) (sym made) ∙ k.token;
      n_vocab = ap (λ x. x.n_vocab) (sym made) ∙ k.n_vocab;
      tokens = ap (λ x. x.tokens) (sym made) ∙ k.tokens;
      merges = ap (λ x. x.merges) (sym made) ∙ k.merges;
    }

pub finish_spm-byte_ids :
    (m : Model) (byte_ids : List ℕ) (v v' : Vocab)
    → finish_spm m byte_ids v ≡ some v'
    → v'.byte_token_ids ≡ byte_ids
unfolding finish_spm with_byte_ids
finish_spm-byte_ids m byte_ids v v' h =
    let (ids, e₁, h₁) = bind-inv (bos_eos m v spm_bos spm_eos) _ v' h in
    let (mid, e₂, made) = map-inv (with_specials v ids.0 ids.1) _ v' h₁ in
    ap (λ x. x.byte_token_ids) (sym made)

-- A vocabulary that loads for byte-pair encoding holds the table of its token list.
pub vocab_load_for_bpe-IsLoaded :
    (m : Model) (v : Vocab) → vocab_load_for_bpe m ≡ some v → IsLoaded v
unfolding vocab_load_for_bpe bare_vocab
vocab_load_for_bpe-IsLoaded m v h =
    let (token, e₁, h₁) =
      bind-inv (string_array m (codes "tokenizer.ggml.tokens") int32_max) _ v h in
    let (merge, e₂, h₂) =
      bind-inv (string_array m (codes "tokenizer.ggml.merges") (2 ^ 64 - 1)) _ v h₁ in
    let (tokens, e₃, h₃) = bind-inv (load_table token) _ v h₂ in
    let (merges, e₄, h₄) = bind-inv (load_table merge) _ v h₃ in
    let v₀ = bare_vocab bpe token none tokens merges in
    built v₀ v token refl refl (string_array-length m _ int32_max token e₁) e₃
      (finish_bpe-Keeps m v₀ v h₄)

-- Likewise for SentencePiece.
pub vocab_load_for_spm-IsLoaded :
    (m : Model) (v : Vocab) → vocab_load_for_spm m ≡ some v → IsLoaded v
unfolding vocab_load_for_spm bare_vocab
vocab_load_for_spm-IsLoaded m v h =
    let (token, e₁, h₁) =
      bind-inv (string_array m (codes "tokenizer.ggml.tokens") int32_max) _ v h in
    let (tokens, e₂, h₂) = bind-inv (load_table token) _ v h₁ in
    let v₀ =
      bare_vocab spm token (read_scores m (length token)) tokens (tokenizer_table_free tokens) in
    built v₀ v token refl refl (string_array-length m _ int32_max token e₁) e₂
      (finish_spm-Keeps m (read_byte_ids m token) v₀ v h₂)

-- A vocabulary that loads, of any flavour, has fewer than 2^31 tokens, as many as it counts, and
-- the table that the loaders build from its token list.
pub vocab_load-IsLoaded : (m : Model) (v : Vocab) → vocab_load m ≡ some v → IsLoaded v
unfolding vocab_load
vocab_load-IsLoaded m v h = let (type, e, r) = bind-inv (tokenizer_type m) _ v h in by_type type r
  where
    by_type :
        (type : TokenizerType)
        → elim type [
          | spm ↦ vocab_load_for_spm m
          | bpe ↦ vocab_load_for_bpe m
          | tokenizer_none ↦ none
          | wpm ↦ none
          | ugm ↦ none
          | rwkv ↦ none
          | whisper ↦ none
        ]
          ≡ some v
        → IsLoaded v
    by_type spm r = vocab_load_for_spm-IsLoaded m v r
    by_type bpe r = vocab_load_for_bpe-IsLoaded m v r
    by_type tokenizer_none r = absurd (cc)
    by_type wpm r = absurd (cc)
    by_type ugm r = absurd (cc)
    by_type rwkv r = absurd (cc)
    by_type whisper r = absurd (cc)
