-- ===== src/Tokenizer/Spm/Spell.antt =====
-- The tokens that the SentencePiece encoder of `src/tokenizer.c` emits: never more than there is room
-- for, and what they spell where the tokens of bytes are spelled by the byte itself.
use mathlib.Core.List.{append_assoc, append-nil}
use mathlib.Core.Path.{subst}
use tinyllama_c.Prelude.{
  Every, append-Every, ℕ, suc, ◌+◌, ◌≤◌, ◌<◌, ◌≡◌, inl, inr, refl, ap, ◌∙◌, sym, Bool, true, false,
  List, [], ◌∷◌, ◌++◌, none, some, ltb, length, arith, Option-cases, length-append,
}
use tinyllama_c.Vocab.Lookup.{Vocab, is_negative}
use tinyllama_c.Tokenizer.Lexicon.{Lexicon, lexicon}
use tinyllama_c.Tokenizer.Chunk.Merge.{pieces, pieces-append}
use tinyllama_c.Tokenizer.Bpe.Loop.{tokenize_bpe-total}
use tinyllama_c.Tokenizer.Spm.{
  normalize, split_chars, push_token, push_byte, emit_bytes, emit_symbol, emit_symbols, spm_symbols,
  tokenize_spm,
}
use tinyllama_c.Tokenizer.Spm.Merges.{
  concat, split_chars-concat, join_loop-Settled, Sized, join_loop-Sized, split_chars-Sized,
}

-- A byte has a token, and its piece is the byte.
abbrev SpelledByte : (ℕ → List ℕ) → Lexicon → ℕ → Type 0
SpelledByte piece lex b =
    (is_negative (lex.byte_token_id b) ≡ false) × (piece (lex.byte_token_id b) ≡ b ∷ [])

module _ (lex : Lexicon) (max_tokens : ℕ) where
  length-push_token :
      (tokens : List ℕ) (id : ℕ)
      → length tokens ≤ max_tokens
      → length (push_token lex max_tokens tokens id) ≤ max_tokens
  unfolding push_token
  length-push_token tokens id h = ground (arith, length-append tokens (id ∷ []))

  length-push_byte :
      (tokens : List ℕ) (b : ℕ)
      → length tokens ≤ max_tokens
      → length (push_byte lex max_tokens tokens b) ≤ max_tokens
  unfolding push_byte
  length-push_byte tokens b h = ground (arith, length-push_token tokens (lex.byte_token_id b))

  length-emit_bytes :
      (tokens bs : List ℕ)
      → length tokens ≤ max_tokens
      → length (emit_bytes lex max_tokens tokens bs) ≤ max_tokens
  unfolding emit_bytes
  length-emit_bytes tokens [] h = h
  length-emit_bytes tokens (b ∷ bs) h =
      length-emit_bytes (push_byte lex max_tokens tokens b) bs (length-push_byte tokens b h)

  emit_symbol-known :
      (tokens s : List ℕ) (id : ℕ)
      → lex.lookup_len s (length s) ≡ some id
      → emit_symbol lex max_tokens tokens s ≡ push_token lex max_tokens tokens id
  unfolding emit_symbol
  emit_symbol-known tokens s id e = ground arith

  emit_symbol-unknown :
      (tokens s : List ℕ)
      → lex.lookup_len s (length s) ≡ none
      → emit_symbol lex max_tokens tokens s ≡ emit_bytes lex max_tokens tokens s
  unfolding emit_symbol
  emit_symbol-unknown tokens s e = ground arith

  length-emit_symbol :
      (tokens s : List ℕ)
      → length tokens ≤ max_tokens
      → length (emit_symbol lex max_tokens tokens s) ≤ max_tokens
  length-emit_symbol tokens s h = elim (Option-cases (lex.lookup_len s (length s))) [
    | inl e ↦ rw (emit_symbol-unknown tokens s e) (length-emit_bytes tokens s h)
    | inr (id, e) ↦ rw (emit_symbol-known tokens s id e) (length-push_token tokens id h)
  ]

  length-emit_symbols :
      (tokens : List ℕ) (ss : List (List ℕ))
      → length tokens ≤ max_tokens
      → length (emit_symbols lex max_tokens tokens ss) ≤ max_tokens
  unfolding emit_symbols
  length-emit_symbols tokens [] h = h
  length-emit_symbols tokens (s ∷ ss) h =
      length-emit_symbols (emit_symbol lex max_tokens tokens s) ss (length-emit_symbol tokens s h)

  module _ (piece : ℕ → List ℕ)
      (known : (text : List ℕ) (id : ℕ)
        → length text ≤ 255
        → lex.lookup_len text (length text) ≡ some id
        → piece id ≡ text) where
    -- The tokens so far spell `done`, and there is room for as many more as there are bytes left.
    record Spelt (tokens done : List ℕ) (left : ℕ) : Type 0 where
      spelled : pieces piece tokens ≡ done
      room : length tokens + left ≤ max_tokens

    push_token-Spelt :
        (tokens done : List ℕ) (left id : ℕ)
        → Spelt tokens done (suc left)
        → Spelt (push_token lex max_tokens tokens id) (done ++ piece id) left
    unfolding push_token
    push_token-Spelt tokens done left id s =
        let fits : ltb (length tokens) max_tokens ≡ true = ground (arith, s.room) in
        rw fits (record {
          spelled =
              pieces-append piece tokens (id ∷ [])
              ∙ rw s.spelled (ap (λ t. done ++ t) (unfold pieces in append-nil (piece id)));
          room = omega (arith, s.room, length-append tokens (id ∷ []));
        })

    weaken : {tokens done : List ℕ} {m n : ℕ} → n ≤ m → Spelt tokens done m → Spelt tokens done n
    weaken h s = record { spelled = s.spelled; room = omega (arith, s.room) }

    push_byte-Spelt :
        (tokens done : List ℕ) (left b : ℕ)
        → SpelledByte piece lex b
        → Spelt tokens done (suc left)
        → Spelt (push_byte lex max_tokens tokens b) (done ++ b ∷ []) left
    unfolding push_byte
    push_byte-Spelt tokens done left b (token, own) s =
        rw token (rw own at (push_token-Spelt tokens done left (lex.byte_token_id b) s))

    emit_bytes-Spelt :
        (tokens done bs : List ℕ) (left : ℕ)
        → Every (SpelledByte piece lex) bs
        → Spelt tokens done (length bs + left)
        → Spelt (emit_bytes lex max_tokens tokens bs) (done ++ bs) left
    unfolding emit_bytes
    emit_bytes-Spelt tokens done [] left all s = rw (append-nil done) (weaken (omega arith) s)
    emit_bytes-Spelt tokens done (b ∷ bs) left (own, all) s =
        subst (λ d. Spelt (emit_bytes lex max_tokens (push_byte lex max_tokens tokens b) bs) d left)
          (append_assoc done (b ∷ []) bs)
          (emit_bytes-Spelt (push_byte lex max_tokens tokens b) (done ++ b ∷ []) bs left all
            (push_byte-Spelt tokens done (length bs + left) b own (weaken (omega arith) s)))

    emit_symbol-Spelt :
        (tokens done s : List ℕ) (left : ℕ)
        → (0 < length s) × (length s ≤ 255)
        → Every (SpelledByte piece lex) s
        → Spelt tokens done (length s + left)
        → Spelt (emit_symbol lex max_tokens tokens s) (done ++ s) left
    emit_symbol-Spelt tokens done s left pos all h =
        elim (Option-cases (lex.lookup_len s (length s))) [
          | inl e ↦ rw (emit_symbol-unknown tokens s e) (emit_bytes-Spelt tokens done s left all h)
          | inr (id, e) ↦ rw (emit_symbol-known tokens s id e) (
              subst (λ t. Spelt (push_token lex max_tokens tokens id) (done ++ t) left)
                (known s id (omega arith) e)
                (push_token-Spelt tokens done left id (weaken (omega arith) h)))
        ]

    emit_symbols-Spelt :
        (tokens done : List ℕ) (ss : List (List ℕ)) (left : ℕ)
        → Sized ss
        → Every (SpelledByte piece lex) (concat ss)
        → Spelt tokens done (length (concat ss) + left)
        → Spelt (emit_symbols lex max_tokens tokens ss) (done ++ concat ss) left
    unfolding emit_symbols concat
    emit_symbols-Spelt tokens done [] left full all h =
        rw (append-nil done) (weaken (omega arith) h)
    emit_symbols-Spelt tokens done (s ∷ ss) left (pos, full) all h =
        let (own, rest) = append-Every (SpelledByte piece lex) s (concat ss) all in
        subst
          (λ d. Spelt (emit_symbols lex max_tokens (emit_symbol lex max_tokens tokens s) ss) d left)
          (append_assoc done s (concat ss))
          (emit_symbols-Spelt (emit_symbol lex max_tokens tokens s) (done ++ s) ss left full rest (
            emit_symbol-Spelt tokens done s (length (concat ss) + left) pos own
              (weaken (omega (arith, length-append s (concat ss))) h)))

module _ (float_gt float_eq : ℕ → ℕ → Bool) (v : Vocab) where
  spm_symbols-concat :
      (scores text : List ℕ) (prefix_space : Bool)
      → (concat (spm_symbols float_gt float_eq v scores text prefix_space)
          ≡ normalize text prefix_space)
        × Sized (spm_symbols float_gt float_eq v scores text prefix_space)
  unfolding spm_symbols
  spm_symbols-concat scores text prefix_space =
      let norm = normalize text prefix_space in
      let chars = split_chars (length norm) norm in
      (
        (join_loop-Settled float_gt float_eq (lexicon v) v.n_vocab scores (length chars) chars
              (omega arith)).1
            ∙ (split_chars-concat (length norm) norm (omega arith)).0,
        join_loop-Sized float_gt float_eq (lexicon v) v.n_vocab scores (length chars) chars
            (split_chars-Sized (length norm) norm),
      )

  -- The SentencePiece encoder gives at most as many tokens as there is room for.
  tokenize_spm-total :
      (text : List ℕ) (max_tokens : ℕ) (prefix_space : Bool)
      → (out : List ℕ) × (tokenize_spm float_gt float_eq v text max_tokens prefix_space ≡ some out)
        × (length out ≤ max_tokens)
  unfolding tokenize_spm
  tokenize_spm-total text max_tokens prefix_space = elim (Option-cases v.scores) [
    | inl e ↦
        let ((out, run, _, fits, _), _) = tokenize_bpe-total (lexicon v) text max_tokens in
        (out, ground arith, fits)
    | inr (scores, e) ↦
        let syms = spm_symbols float_gt float_eq v scores text prefix_space in
        (
          emit_symbols (lexicon v) max_tokens [] syms,
          ground arith,
          length-emit_symbols (lexicon v) max_tokens [] syms (omega arith),
        )
  ]

  -- With scores, and ids that name the pieces of at most 255 bytes that they are found under: where the
  -- token of each byte of the normalised text is spelled by the byte itself, which a piece `<0xHH>` is
  -- not, and there is room for a token for each, the tokens spell the normalised text.
  tokenize_spm-pieces :
      (piece : ℕ → List ℕ)
      → ((text : List ℕ) (id : ℕ)
          → length text ≤ 255
          → (lexicon v).lookup_len text (length text) ≡ some id
          → piece id ≡ text)
      → (scores text : List ℕ) (max_tokens : ℕ) (prefix_space : Bool) → v.scores ≡ some scores
      → Every (SpelledByte piece (lexicon v)) (normalize text prefix_space)
      → length (normalize text prefix_space) ≤ max_tokens
      → (out : List ℕ) × (tokenize_spm float_gt float_eq v text max_tokens prefix_space ≡ some out)
        × (pieces piece out ≡ normalize text prefix_space)
  unfolding tokenize_spm
  tokenize_spm-pieces piece known scores text max_tokens prefix_space scored all fits =
      let syms = spm_symbols float_gt float_eq v scores text prefix_space in
      let (same, full) = spm_symbols-concat scores text prefix_space in
      let start : Spelt (lexicon v) max_tokens piece known [] [] (length (concat syms) + 0) =
        record { spelled = unfold pieces in refl; room = omega (arith, ap length same) } in
      let s =
        emit_symbols-Spelt (lexicon v) max_tokens piece known [] [] syms 0 full
          (subst (Every (SpelledByte piece (lexicon v))) (sym same) all) start in
      (emit_symbols (lexicon v) max_tokens [] syms, ground arith, s.spelled ∙ same)
