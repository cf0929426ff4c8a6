-- ===== src/Tokenizer/Spm/Prefix.antt =====
-- A limit on the number of tokens cuts the tokens of a text and changes none of them.
use mathlib.Core.List.{append_assoc, append-nil}
use tinyllama_c.Prelude.{
  ℕ, ◌≡◌, refl, ◌∙◌, ap, inl, inr, Bool, List, [], ◌∷◌, ◌++◌, none, some, length, arith, take,
  Option-cases, write-snoc, take-nil, if◌then◌else◌, Bool-cases,
}
use tinyllama_c.Vocab.Lookup.{Vocab, is_negative}
use tinyllama_c.Tokenizer.Lexicon.{Lexicon, lexicon}
use tinyllama_c.Tokenizer.Bpe.Loop.{bpe_tokens, tokenize_bpe-take}
use tinyllama_c.Tokenizer.Spm.{
  push_token, push_byte, emit_bytes, emit_symbol, emit_symbols, spm_symbols, tokenize_spm,
}

module _ (lex : Lexicon) where
  -- The tokens of the bytes of a symbol that is no piece, and of any symbol.
  unfoldable pub byte_tokens : List ℕ → List ℕ
  byte_tokens [] = []
  byte_tokens (b ∷ bs) =
      (if is_negative (lex.byte_token_id b) then [] else lex.byte_token_id b ∷ []) ++ byte_tokens bs

  unfoldable pub symbol_tokens : List ℕ → List ℕ
  symbol_tokens s = elim (lex.lookup_len s (length s)) [ some id ↦ id ∷ [] | none ↦ byte_tokens s ]

  unfoldable pub all_tokens : List (List ℕ) → List ℕ
  all_tokens [] = []
  all_tokens (s ∷ ss) = symbol_tokens s ++ all_tokens ss

  module _ (max : ℕ) where
    push_token-take :
        (a : List ℕ) (id : ℕ) → push_token lex max (take max a) id ≡ take max (a ++ id ∷ [])
    unfolding push_token
    push_token-take a id = write-snoc max a id

    push_byte-take :
        (a : List ℕ) (b : ℕ)
        → push_byte lex max (take max a) b
          ≡ take max
              (a ++ (if is_negative (lex.byte_token_id b) then [] else lex.byte_token_id b ∷ []))
    unfolding push_byte
    push_byte-take a b = elim (Bool-cases (is_negative (lex.byte_token_id b))) [
      | inl e ↦ rw (e, append-nil a) refl
      | inr e ↦ rw e (push_token-take a (lex.byte_token_id b))
    ]

    emit_bytes-take :
        (a bs : List ℕ) → emit_bytes lex max (take max a) bs ≡ take max (a ++ byte_tokens bs)
    unfolding emit_bytes byte_tokens
    emit_bytes-take a [] = rw (append-nil a) refl
    emit_bytes-take a (b ∷ bs) =
        let own = if is_negative (lex.byte_token_id b) then [] else lex.byte_token_id b ∷ [] in
        ap (λ t. emit_bytes lex max t bs) (push_byte-take a b)
        ∙ emit_bytes-take (a ++ own) bs
        ∙ ap (take max) (append_assoc a own (byte_tokens bs))

    emit_symbol-take :
        (a s : List ℕ) → emit_symbol lex max (take max a) s ≡ take max (a ++ symbol_tokens s)
    unfolding emit_symbol symbol_tokens
    emit_symbol-take a s = elim (Option-cases (lex.lookup_len s (length s))) [
      | inl e ↦ ground (arith, emit_bytes-take a s)
      | inr (id, e) ↦ ground (arith, push_token-take a id)
    ]

    emit_symbols-take :
        (a : List ℕ) (ss : List (List ℕ))
        → emit_symbols lex max (take max a) ss ≡ take max (a ++ all_tokens ss)
    unfolding emit_symbols all_tokens
    emit_symbols-take a [] = rw (append-nil a) refl
    emit_symbols-take a (s ∷ ss) =
        ap (λ t. emit_symbols lex max t ss) (emit_symbol-take a s)
        ∙ emit_symbols-take (a ++ symbol_tokens s) ss
        ∙ ap (take max) (append_assoc a (symbol_tokens s) (all_tokens ss))

module _ (float_gt float_eq : ℕ → ℕ → Bool) (v : Vocab) where
  -- All tokens of a text.
  unfoldable pub spm_tokens : List ℕ → Bool → List ℕ
  spm_tokens text prefix_space = elim v.scores [
    | none ↦ bpe_tokens (lexicon v) text
    | some scores ↦
        all_tokens (lexicon v) (spm_symbols float_gt float_eq v scores text prefix_space)
  ]

  pub tokenize_spm-take :
      (text : List ℕ) (max : ℕ) (prefix_space : Bool)
      → tokenize_spm float_gt float_eq v text max prefix_space
        ≡ some (take max (spm_tokens text prefix_space))
  unfolding tokenize_spm spm_tokens
  tokenize_spm-take text max prefix_space = elim (Option-cases v.scores) [
    | inl e ↦ ground (arith, tokenize_bpe-take (lexicon v) text max)
    | inr (scores, e) ↦
        let syms = spm_symbols float_gt float_eq v scores text prefix_space in
        ground (arith, emit_symbols-take (lexicon v) max [] syms, take-nil {A = ℕ} max)
  ]
