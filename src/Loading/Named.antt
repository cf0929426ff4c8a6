-- ===== src/Loading/Named.antt =====
-- The bytes that have an id in a SentencePiece vocabulary without token types, `src/core.c`.
use mathlib.Core.Path.{subst}
use tinyllama_c.Prelude.{
  ℕ, zero, suc, ◌+◌, ◌<◌, ◌^◌, ◌≡◌, ◌≢◌, ◌∙◌, sym, ap, inl, inr, List, [], ◌∷◌, none, some, ◌==◌,
  ◌&&◌, if◌then◌else◌, length, get_or, set, replicate, arith, codes, bind-inv, get_or-set_self,
  length-set, length-replicate, Option-cases,
}
use tinyllama_c.Vocab.Key.{Key}
use tinyllama_c.Vocab.Lookup.{vocab_id_none, Vocab, spm}
use tinyllama_c.Gguf.Model.{Model, model_get_array}
use tinyllama_c.Loading.Bytes.{spm_byte_token_value, note_byte, spm_byte_ids, typed_byte_ids}
use tinyllama_c.Gguf.Cursor.{cursor_at}
use tinyllama_c.Loading.Names.{Names, Names-lt, Names-spm_byte_token_value}
use tinyllama_c.Loading.{
  read_byte_ids, vocab_load_for_spm, bare_vocab, string_array, int32_max, read_scores,
}
use tinyllama_c.Vocab.Table.{load_table, tokenizer_table_free}
use tinyllama_c.Loading.Loaded.{finish_spm-Keeps, finish_spm-byte_ids}

abbrev Noted : List ℕ → ℕ → Type 0
Noted ids b = get_or ids b vocab_id_none < vocab_id_none

set-Noted : (ids : List ℕ) (i c b : ℕ) → i < 2 ^ 31 → Noted ids b → Noted (set ids c i) b
set-Noted [] i c b small h = h
set-Noted (x ∷ ids) i zero zero small h = omega arith
set-Noted (x ∷ ids) i zero (suc b) small h = h
set-Noted (x ∷ ids) i (suc c) zero small h = h
set-Noted (x ∷ ids) i (suc c) (suc b) small h = set-Noted ids i c b small h

note_byte-none :
    (i : ℕ) (k : Key) (ids : List ℕ) → spm_byte_token_value k ≡ none → note_byte i k ids ≡ ids
unfolding note_byte
note_byte-none i k ids e = ap (λ o. elim o [ none ↦ ids | some b ↦ set ids b i ]) e

note_byte-some :
    (i : ℕ) (k : Key) (ids : List ℕ) (c : ℕ)
    → spm_byte_token_value k ≡ some c
    → note_byte i k ids ≡ set ids c i
unfolding note_byte
note_byte-some i k ids c e = ap (λ o. elim o [ none ↦ ids | some b ↦ set ids b i ]) e

length-note_byte : (i : ℕ) (k : Key) (ids : List ℕ) → length (note_byte i k ids) ≡ length ids
length-note_byte i k ids = elim (Option-cases (spm_byte_token_value k)) [
  | inl e ↦ ap length (note_byte-none i k ids e)
  | inr (b, e) ↦ ap length (note_byte-some i k ids b e) ∙ length-set ids b i
]

note_byte-Noted :
    (i : ℕ) (k : Key) (ids : List ℕ) (b : ℕ)
    → i < 2 ^ 31
    → Noted ids b
    → Noted (note_byte i k ids) b
note_byte-Noted i k ids b small h = elim (Option-cases (spm_byte_token_value k)) [
  | inl e ↦ rw (note_byte-none i k ids e) h
  | inr (c, e) ↦ rw (note_byte-some i k ids c e) (set-Noted ids i c b small h)
]

name-Noted :
    (i : ℕ) (k : Key) (ids : List ℕ) (b : ℕ)
    → i < 2 ^ 31
    → b < length ids
    → Names k b
    → Noted (note_byte i k ids) b
name-Noted i k ids b small inside n =
    rw (note_byte-some i k ids b (Names-spm_byte_token_value k b n))
      (omega (arith, small, get_or-set_self ids b i vocab_id_none inside))

spm_byte_ids-Noted :
    (i : ℕ) (ks : List Key) (ids : List ℕ) (b : ℕ)
    → i + length ks < 2 ^ 31
    → Noted ids b
    → Noted (spm_byte_ids i ks ids) b
unfolding spm_byte_ids
spm_byte_ids-Noted i [] ids b small h = h
spm_byte_ids-Noted i (k ∷ ks) ids b small h =
    spm_byte_ids-Noted (i + 1) ks (note_byte i k ids) b (omega (arith, small))
      (note_byte-Noted i k ids b (omega (arith, small)) h)

spm_byte_ids-Names :
    (i : ℕ) (ks : List Key) (ids : List ℕ) (j b : ℕ)
    → i + length ks < 2 ^ 31
    → b < length ids
    → j < length ks
    → Names (get_or ks j []) b
    → Noted (spm_byte_ids i ks ids) b
unfolding spm_byte_ids
spm_byte_ids-Names i [] ids j b small inside known n = absurd (omega arith)
spm_byte_ids-Names i (k ∷ ks) ids zero b small inside known n =
    spm_byte_ids-Noted (i + 1) ks (note_byte i k ids) b (omega (arith, small))
      (name-Noted i k ids b (omega (arith, small)) inside n)
spm_byte_ids-Names i (k ∷ ks) ids (suc j) b small inside known n =
    spm_byte_ids-Names (i + 1) ks (note_byte i k ids) j b (omega (arith, small))
      (omega (arith, inside, length-note_byte i k ids)) (omega (arith, known)) n

read_byte_ids-untyped :
    (m : Model) (token : List Key)
    → model_get_array m (codes "tokenizer.ggml.token_type") ≡ none
    → read_byte_ids m token ≡ spm_byte_ids 0 token (replicate 256 vocab_id_none)
unfolding read_byte_ids
read_byte_ids-untyped m token e =
    ap
      (λ o. elim o [
        | none ↦ spm_byte_ids 0 token (replicate 256 vocab_id_none)
        | some a ↦
            if a.type == 5 && a.len == length token
            then typed_byte_ids 0 token (cursor_at m.map m.size a.data_pos)
                (replicate 256 vocab_id_none)
            else spm_byte_ids 0 token (replicate 256 vocab_id_none)
      ])
      e

-- In a SentencePiece vocabulary of fewer than 2^31 pieces that loads from a file without token types,
-- every byte that a piece names has an id.
pub vocab_load_for_spm-Names :
    (m : Model) (v : Vocab) (i b : ℕ)
    → vocab_load_for_spm m ≡ some v
    → model_get_array m (codes "tokenizer.ggml.token_type") ≡ none
    → length v.token < 2 ^ 31
    → i < length v.token
    → Names (get_or v.token i []) b
    → get_or v.byte_token_ids b vocab_id_none ≢ vocab_id_none
unfolding vocab_load_for_spm bare_vocab
vocab_load_for_spm-Names m v i b h untyped small known n =
    let (token, e₁, h₁) =
      bind-inv (string_array m (codes "tokenizer.ggml.tokens") int32_max) _ v h in
    let (tokens, e₂, h₂) = bind-inv (load_table token) _ v h₁ in
    let v₀ =
      bare_vocab spm token (read_scores m (length token)) tokens (tokenizer_table_free tokens) in
    let all : v.token ≡ token = (finish_spm-Keeps m (read_byte_ids m token) v₀ v h₂).token in
    let ids = finish_spm-byte_ids m (read_byte_ids m token) v₀ v h₂ in
    let noted : Noted v.byte_token_ids b =
      subst (λ x. Noted x b) (sym ids)
        (by_pieces token (rw all at small) (rw all at known) (rw all at n)) in
    λ e. omega (arith, noted, e)
  where
    by_pieces :
        (token : List Key)
        → length token < 2 ^ 31
        → i < length token
        → Names (get_or token i []) b
        → Noted (read_byte_ids m token) b
    by_pieces token small known n = rw (read_byte_ids-untyped m token untyped) (
        spm_byte_ids-Names 0 token (replicate 256 vocab_id_none) i b (omega (arith, small))
          (omega (arith, Names-lt _ b n, length-replicate 256 vocab_id_none)) known n)
