-- ===== src/Loading/ByteIds.antt =====
-- The tokens of single bytes in a SentencePiece vocabulary, `src/core.c`.
use mathlib.Core.Path.{subst}
use tinyllama_c.Prelude.{
  ℕ, zero, suc, ◌+◌, ◌≡◌, ◌⊎◌, refl, sym, ap, inl, inr, Bool, true, false, ◌&&◌, List, [], ◌∷◌,
  Option, none, some, ◌==◌, if◌then◌else◌, length, get_or, set, replicate, arith, get_or-replicate,
  codes, bind-inv,
}
use tinyllama_c.Vocab.Key.{Key}
use tinyllama_c.Vocab.Lookup.{vocab_id_none, Vocab, spm}
use tinyllama_c.Gguf.Cursor.{Cursor, cursor_at, cursor_u32}
use tinyllama_c.Gguf.Model.{Model, ArrayRef, model_get_array}
use tinyllama_c.Loading.Bytes.{spm_byte_token_value, note_byte, spm_byte_ids, typed_byte_ids}
use tinyllama_c.Loading.Names.{Names, spm_byte_token_value-Names}
use tinyllama_c.Loading.{
  read_byte_ids, vocab_load_for_spm, bare_vocab, string_array, int32_max, read_scores,
}
use tinyllama_c.Vocab.Table.{load_table, tokenizer_table_free}
use tinyllama_c.Loading.Loaded.{finish_spm-Keeps, finish_spm-byte_ids}

-- Every id of the table is that of a piece that names the byte.
pub IsNamed : List Key → List ℕ → Type 0
IsNamed token ids =
    (b : ℕ)
    → (get_or ids b vocab_id_none ≡ vocab_id_none)
      ⊎ Names (get_or token (get_or ids b vocab_id_none) []) b

set-IsNamed :
    (token : List Key) (ids : List ℕ) (i b : ℕ)
    → IsNamed token ids
    → Names (get_or token i []) b
    → IsNamed token (set ids b i)
unfolding IsNamed
set-IsNamed token ids i b named e c = elim (set-cases ids b i c) [
  | inl old ↦ rw old (named c)
  | inr (here, new) ↦ inr (rw new (subst (Names (get_or token i [])) here e))
]
  where
    set-cases :
        (ids : List ℕ) (b i c : ℕ)
        → (get_or (set ids b i) c vocab_id_none ≡ get_or ids c vocab_id_none)
          ⊎ (b ≡ c) × (get_or (set ids b i) c vocab_id_none ≡ i)
    set-cases [] b i c = inl refl
    set-cases (x ∷ xs) zero i zero = inr (refl, refl)
    set-cases (x ∷ xs) zero i (suc c) = inl refl
    set-cases (x ∷ xs) (suc b) i zero = inl refl
    set-cases (x ∷ xs) (suc b) i (suc c) = elim (set-cases xs b i c) [
      | inl old ↦ inl old
      | inr (here, new) ↦ inr (ap suc here, new)
    ]

note_byte-IsNamed :
    (token : List Key) (ids : List ℕ) (i : ℕ) (k : Key)
    → get_or token i [] ≡ k
    → IsNamed token ids
    → IsNamed token (note_byte i k ids)
unfolding note_byte
note_byte-IsNamed token ids i k here named =
    noted (spm_byte_token_value k) (ap spm_byte_token_value here)
  where
    noted :
        (o : Option ℕ)
        → spm_byte_token_value (get_or token i []) ≡ o
        → IsNamed token (elim o [ none ↦ ids | some b ↦ set ids b i ])
    noted none e = named
    noted (some b) e =
        set-IsNamed token ids i b named (spm_byte_token_value-Names (get_or token i []) b e)

module _ (token : List Key) where
  key_here :
      (i : ℕ) (k : Key) (ks : List Key)
      → ((j : ℕ) → get_or (k ∷ ks) j [] ≡ get_or token (i + j) [])
      → get_or token i [] ≡ k
  key_here i k ks same = let e : i + 0 ≡ i = omega arith in sym (rw e at (same 0))

  keys_after :
      (i : ℕ) (k : Key) (ks : List Key)
      → ((j : ℕ) → get_or (k ∷ ks) j [] ≡ get_or token (i + j) [])
      → (j : ℕ) → get_or ks j [] ≡ get_or token (i + 1 + j) []
  keys_after i k ks same j = let e : i + suc j ≡ i + 1 + j = omega arith in rw e at (same (suc j))

  spm_byte_ids-IsNamed :
      (i : ℕ) (ks : List Key) (ids : List ℕ)
      → ((j : ℕ) → get_or ks j [] ≡ get_or token (i + j) [])
      → IsNamed token ids
      → IsNamed token (spm_byte_ids i ks ids)
  unfolding spm_byte_ids
  spm_byte_ids-IsNamed i [] ids same named = named
  spm_byte_ids-IsNamed i (k ∷ ks) ids same named =
      spm_byte_ids-IsNamed (i + 1) ks (note_byte i k ids) (keys_after i k ks same)
        (note_byte-IsNamed token ids i k (key_here i k ks same) named)

  typed_byte_ids-IsNamed :
      (i : ℕ) (ks : List Key) (c : Cursor) (ids : List ℕ)
      → ((j : ℕ) → get_or ks j [] ≡ get_or token (i + j) [])
      → IsNamed token ids
      → IsNamed token (typed_byte_ids i ks c ids)
  unfolding typed_byte_ids
  typed_byte_ids-IsNamed i [] c ids same named = named
  typed_byte_ids-IsNamed i (k ∷ ks) c ids same named = typed ((cursor_u32 c).0) (λ ids' named'.
      typed_byte_ids-IsNamed (i + 1) ks ((cursor_u32 c).1) ids' (keys_after i k ks same) named')
    where
      kept : (b : Bool) → IsNamed token (if b then note_byte i k ids else ids)
      kept true = note_byte-IsNamed token ids i k (key_here i k ks same) named
      kept false = named

      typed :
          (o : Option ℕ)
          → ((ids' : List ℕ)
              → IsNamed token ids'
              → IsNamed token (typed_byte_ids (i + 1) ks ((cursor_u32 c).1) ids'))
          → IsNamed token (elim o [
            | none ↦ ids
            | some t ↦
                typed_byte_ids
                  (i + 1)
                  ks
                  ((cursor_u32 c).1)
                  (if t == 6 then note_byte i k ids else ids)
          ])
      typed none after = named
      typed (some t) after = after (if t == 6 then note_byte i k ids else ids) (kept (t == 6))

fresh-IsNamed : (token : List Key) → IsNamed token (replicate 256 vocab_id_none)
unfolding IsNamed
fresh-IsNamed token b = inl (get_or-replicate 256 b vocab_id_none)

read_byte_ids-IsNamed : (m : Model) (token : List Key) → IsNamed token (read_byte_ids m token)
unfolding read_byte_ids
read_byte_ids-IsNamed m token = types (model_get_array m (codes "tokenizer.ggml.token_type"))
  where
    fresh : IsNamed token (replicate 256 vocab_id_none)
    fresh = fresh-IsNamed token

    same : (j : ℕ) → get_or token j [] ≡ get_or token (0 + j) []
    same j = let e : 0 + j ≡ j = omega arith in rw e refl

    by_types :
        (a : ArrayRef) (b : Bool)
        → IsNamed token (
            if b
            then typed_byte_ids 0 token
                (cursor_at m.map m.size a.data_pos)
                (replicate 256 vocab_id_none)
            else spm_byte_ids 0 token (replicate 256 vocab_id_none))
    by_types a true = typed_byte_ids-IsNamed token 0 token _ _ same fresh
    by_types a false = spm_byte_ids-IsNamed token 0 token _ same fresh

    types :
        (o : Option ArrayRef)
        → IsNamed token (elim o [
          | none ↦ spm_byte_ids 0 token (replicate 256 vocab_id_none)
          | some a ↦
              if a.type == 5 && a.len == length token
              then typed_byte_ids 0 token
                  (cursor_at m.map m.size a.data_pos)
                  (replicate 256 vocab_id_none)
              else spm_byte_ids 0 token (replicate 256 vocab_id_none)
        ])
    types none = spm_byte_ids-IsNamed token 0 token _ same fresh
    types (some a) = by_types a (a.type == 5 && a.len == length token)

-- In a SentencePiece vocabulary that loads, every id that a byte has is that of a piece whose value
-- is the byte.
pub vocab_load_for_spm-IsNamed :
    (m : Model) (v : Vocab) → vocab_load_for_spm m ≡ some v → IsNamed v.token v.byte_token_ids
unfolding vocab_load_for_spm bare_vocab
vocab_load_for_spm-IsNamed m v h =
    let (token, e₁, h₁) =
      bind-inv (string_array m (codes "tokenizer.ggml.tokens") int32_max) _ v h in
    let (tokens, e₂, h₂) = bind-inv (load_table token) _ v h₁ in
    let v₀ =
      bare_vocab spm token (read_scores m (length token)) tokens (tokenizer_table_free tokens) in
    let all = (finish_spm-Keeps m (read_byte_ids m token) v₀ v h₂).token in
    let ids = finish_spm-byte_ids m (read_byte_ids m token) v₀ v h₂ in
    subst (λ t. IsNamed t v.byte_token_ids) (sym all)
      (subst (λ x. IsNamed token x) (sym ids) (read_byte_ids-IsNamed m token))
