-- ===== src/Tokenizer/Bpe/Loop.antt =====
-- The loop of `tokenize_bpe`: it ends, respects its bounds, and its tokens spell the text.
use mathlib.Core.List.{append_assoc, append-nil}
use native.Mathlib.Decide.{dec_lt}
use tinyllama_c.Prelude.{
  take-Every, drop-Every, none, ℕ, zero, suc, ◌+◌, ◌-◌, ◌≤◌, ◌<◌, ◌≡◌, ◌≢◌, ◌⊎◌, inl, inr, refl,
  sym, ◌∙◌, List, [], ◌∷◌, ◌++◌, some, length, take, drop, arith, length-drop, length-take,
  length-append, take-append-drop, take-all,
}
use tinyllama_c.Vocab.Lookup.{vocab_id_none}
use tinyllama_c.Tokenizer.Lexicon.{Lexicon}
use tinyllama_c.Tokenizer.Chunk.{bpe_encode_chunk, max_syms, merge_step, merge_loop}
use tinyllama_c.Tokenizer.Chunk.Merge.{
  Covered, pieces, pieces-append, bpe_encode_chunk-pieces, length-bpe_encode_chunk, merge_loop-done,
}
use tinyllama_c.Tokenizer.Bpe.{
  Round, special, encode, pass, match_special_token, next_round, tokenize_loop, tokenize_bpe,
  bpe_max_symbols,
}
use tinyllama_c.Tokenizer.Bpe.Progress.{Advances, next_round-Advances, next_round-special}

module _ (lex : Lexicon) where
  -- The symbols that a round adds.
  added : List ℕ → List ℕ → Round → List ℕ
  added symbols rest (special id len) = id ∷ []
  added symbols rest (encode len) =
      bpe_encode_chunk lex (take len rest) (bpe_max_symbols - length symbols)
  added symbols rest (pass len) = []

  advance : Round → ℕ
  advance (special id len) = len
  advance (encode len) = len
  advance (pass len) = len

  Round-advance :
      (rest : List ℕ) (r : Round) → Advances rest r → (0 < advance r) × (advance r ≤ length rest)
  unfolding advance
  Round-advance rest (special id len) h = h
  Round-advance rest (encode len) h = h
  Round-advance rest (pass len) h = absurd h

  length-added :
      (symbols rest : List ℕ) (r : Round)
      → Advances rest r
      → length symbols < bpe_max_symbols
      → (length (added symbols rest r) ≤ advance r)
        × (length symbols + length (added symbols rest r) ≤ bpe_max_symbols)
  unfolding added advance
  length-added symbols rest (special id len) h room = omega arith
  length-added symbols rest (encode len) h room = omega (
    arith,
    length-bpe_encode_chunk lex (take len rest) (bpe_max_symbols - length symbols),
    length-take len rest,
  )
  length-added symbols rest (pass len) h room = absurd h

  tokenize_loop-next :
      (f : ℕ) (symbols rest : List ℕ)
      → 0 < length rest
      → length symbols < bpe_max_symbols
      → tokenize_loop lex (suc f) symbols rest
        ≡ tokenize_loop lex f
            (symbols ++ added symbols rest (next_round lex rest))
            (drop (advance (next_round lex rest)) rest)
  unfolding tokenize_loop added advance
  tokenize_loop-next f symbols rest some_left room = ground (arith, append-nil symbols)

  -- A property of the symbols and the rest of the text that each round keeps holds at the end, and
  -- then either the text is used up or the symbols are full.
  tokenize_loop-end :
      (P : List ℕ → List ℕ → Type 0)
      → ((symbols rest : List ℕ)
          → 0 < length rest
          → length symbols < bpe_max_symbols
          → P symbols rest
          → P
              (symbols ++ added symbols rest (next_round lex rest))
              (drop (advance (next_round lex rest)) rest))
      → (f : ℕ) (symbols rest : List ℕ) → length rest < f
      → P symbols rest
      → (out left : List ℕ) × (tokenize_loop lex f symbols rest ≡ some out)
        × P out left
        × ((left ≡ []) ⊎ (bpe_max_symbols ≤ length out))
  unfolding tokenize_loop
  tokenize_loop-end P keep zero symbols rest h p = absurd (omega arith)
  tokenize_loop-end P keep (suc f) symbols [] h p = (symbols, [], refl, p, inl refl)
  tokenize_loop-end P keep (suc f) symbols (c ∷ cs) h p =
      elim (dec_lt (length symbols) bpe_max_symbols) [
        | no full ↦ (symbols, c ∷ cs, ground arith, p, inr (omega arith))
        | yes room ↦
            let r = next_round lex (c ∷ cs) in
            let moved = Round-advance (c ∷ cs) r (next_round-Advances lex (c ∷ cs) (omega arith)) in
            let (out, left, run, q, ends) =
              tokenize_loop-end P keep f (symbols ++ added symbols (c ∷ cs) r)
                (drop (advance r) (c ∷ cs)) (omega (arith, moved, length-drop (advance r) (c ∷ cs)))
                (keep symbols (c ∷ cs) (omega arith) room p) in
            (out, left, tokenize_loop-next f symbols (c ∷ cs) (omega arith) room ∙ run, q, ends)
      ]

  -- Never more symbols than bytes consumed, nor than the buffer holds.
  abbrev Bounded : ℕ → List ℕ → List ℕ → Type 0
  Bounded n symbols rest = (length symbols + length rest ≤ n) × (length symbols ≤ bpe_max_symbols)

  Bounded-next :
      (n : ℕ) (symbols rest : List ℕ)
      → 0 < length rest
      → length symbols < bpe_max_symbols
      → Bounded n symbols rest
      → Bounded n
          (symbols ++ added symbols rest (next_round lex rest))
          (drop (advance (next_round lex rest)) rest)
  Bounded-next n symbols rest some_left room b =
      let r = next_round lex rest in
      let h = next_round-Advances lex rest some_left in
      omega (
        arith,
        Round-advance rest r h,
        length-added symbols rest r h room,
        length-append symbols (added symbols rest r),
        length-drop (advance r) rest,
      )

  -- Where every look-up ends, as a `Lexicon` has it: the loop over the text is not cut off, no merge
  -- loop over the symbols of a chunk is cut off before a round that changes nothing, and there are at
  -- most as many tokens as there are bytes, as the caller has room for, and as the buffer holds.
  pub tokenize_bpe-total :
      (text : List ℕ) (max_tokens : ℕ)
      → ((out : List ℕ) × (tokenize_bpe lex text max_tokens ≡ some out)
          × (length out ≤ length text)
          × (length out ≤ max_tokens)
          × (length out ≤ bpe_max_symbols))
        × ((syms : List ℕ) → merge_step lex (merge_loop lex (length syms) syms) ≡ none)
  unfolding tokenize_bpe
  tokenize_bpe-total text max_tokens =
      let (symbols, left, run, bounds, _) =
        tokenize_loop-end (Bounded (length text)) (Bounded-next (length text)) (suc (length text))
          [] text (omega arith) (omega arith) in
      (
        (
          take max_tokens symbols,
          ground arith,
          omega (arith, length-take max_tokens symbols),
          omega (arith, length-take max_tokens symbols),
          omega (arith, length-take max_tokens symbols),
        ),
        λ syms. merge_loop-done lex (length syms) syms (omega arith),
      )

  loop_tokens :
      (text : List ℕ) → (out : List ℕ) × (tokenize_loop lex (suc (length text)) [] text ≡ some out)
  loop_tokens text =
      let (symbols, left, run, _, _) =
        tokenize_loop-end (Bounded (length text)) (Bounded-next (length text)) (suc (length text))
          [] text (omega arith) (omega arith) in
      (symbols, run)

  -- All tokens of a text, and a limit only cuts them.
  unfoldable pub bpe_tokens : List ℕ → List ℕ
  bpe_tokens text = elim (tokenize_loop lex (suc (length text)) [] text) [
    | none ↦ []
    | some symbols ↦ symbols
  ]

  pub tokenize_bpe-take :
      (text : List ℕ) (max : ℕ) → tokenize_bpe lex text max ≡ some (take max (bpe_tokens text))
  unfolding tokenize_bpe bpe_tokens
  tokenize_bpe-take text max = ground (arith, (loop_tokens text).1)

  module _ (piece : ℕ → List ℕ)
      (joins : (a b : ℕ)
        → lex.merge_result a b ≢ vocab_id_none
        → piece (lex.merge_result a b) ≡ piece a ++ piece b)
      (specials : (text : List ℕ) (id len : ℕ)
        → match_special_token lex text ≡ some (id, len)
        → piece id ≡ pieces (λ b. piece (lex.byte_token_id b)) (take len text)) where
    abbrev spell : List ℕ → List ℕ
    spell = pieces (λ b. piece (lex.byte_token_id b))

    -- What the symbols spell, and what is left of the text.
    abbrev Spells : List ℕ → List ℕ → List ℕ → Type 0
    Spells text symbols rest =
        (pieces piece symbols ++ spell rest ≡ spell text)
        × (length symbols + length rest ≤ length text)
        × Covered lex rest

    pieces-added :
        (symbols rest : List ℕ) (r : Round)
        → next_round lex rest ≡ r
        → Advances rest r
        → length symbols + length rest ≤ max_syms
        → Covered lex rest
        → pieces piece (added symbols rest r) ≡ spell (take (advance r) rest)
    unfolding added advance pieces
    pieces-added symbols rest (special id len) e h small all =
        append-nil (piece id) ∙ specials rest id len (next_round-special lex rest id len e).0
    pieces-added symbols rest (encode len) e h small all =
        bpe_encode_chunk-pieces lex piece joins (take len rest) (bpe_max_symbols - length symbols)
          (take-Every _ len rest all) (omega (arith, length-take len rest))
          (omega (arith, length-take len rest))
    pieces-added symbols rest (pass len) e h small all = absurd h

    Spells-next :
        (text symbols rest : List ℕ)
        → 0 < length rest
        → length symbols < bpe_max_symbols
        → length text ≤ max_syms
        → Spells text symbols rest
        → Spells text
            (symbols ++ added symbols rest (next_round lex rest))
            (drop (advance (next_round lex rest)) rest)
    Spells-next text symbols rest some_left room small s =
        let r = next_round lex rest in
        let h = next_round-Advances lex rest some_left in
        let here = take (advance r) rest in
        let left = drop (advance r) rest in
        (
          rw
              (
                pieces-append piece symbols (added symbols rest r),
                pieces-added symbols rest r refl h (omega arith) s.2,
                append_assoc (pieces piece symbols) (spell here) (spell left),
                ← pieces-append (λ b. piece (lex.byte_token_id b)) here left,
                take-append-drop (advance r) rest,
              )
              s.0,
          omega (
            arith,
            Round-advance rest r h,
            length-added symbols rest r h room,
            length-append symbols (added symbols rest r),
            length-drop (advance r) rest,
          ),
          drop-Every _ (advance r) rest s.2,
        )

    -- For a vocabulary whose merges join the pieces of their parts, and special tokens that spell
    -- themselves, the tokens of a text of at most 512 bytes, each of them with a token, spell that
    -- text, when the caller has room for them.
    pub tokenize_bpe-pieces :
        (text : List ℕ) (max_tokens : ℕ)
        → Covered lex text
        → length text ≤ max_syms
        → length text ≤ max_tokens
        → (out : List ℕ) × (tokenize_bpe lex text max_tokens ≡ some out)
          × (pieces piece out ≡ spell text)
    unfolding tokenize_bpe pieces
    tokenize_bpe-pieces text max_tokens all_bytes small fits =
        let (symbols, left, run, (spelled, bound, _), ends) =
          tokenize_loop-end (Spells text)
            (λ s r some_left room. Spells-next text s r some_left room small) (suc (length text)) []
            text (omega arith) (refl, omega arith, all_bytes) in
        let all : take max_tokens symbols ≡ symbols = take-all max_tokens symbols (omega arith) in
        elim ends [
          | inr full ↦ absurd (omega arith)
          | inl done ↦ (
            symbols,
            ground (arith, all),
            sym (append-nil (pieces piece symbols)) ∙ rw done at spelled,
          )
        ]
