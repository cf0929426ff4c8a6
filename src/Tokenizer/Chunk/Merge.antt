-- ===== src/Tokenizer/Chunk/Merge.antt =====
-- The merge loop of `bpe_encode_chunk`: it ends, follows the greedy order, and keeps the text.
use mathlib.Core.List.{append_assoc}
use mathlib.Core.Path.{subst}
use tinyllama_c.Prelude.{
  Every, ℕ, zero, suc, ◌+◌, ◌≤◌, ◌<◌, ◌≡◌, ◌≢◌, ◌⊎◌, inl, inr, refl, ap, ◌∙◌, false, List, [], ◌∷◌,
  ◌++◌, none, some, ◌==◌, ==_iff, length, get_or, take, drop, arith, Bool-cases, take-all, take-nil,
  if◌then◌else◌, sym, length-take,
}
use tinyllama_c.Vocab.Lookup.{is_negative, vocab_id_none}
use tinyllama_c.Tokenizer.Lexicon.{Lexicon}
use tinyllama_c.Tokenizer.Chunk.{
  byte_symbols, best_pair, merge_at, merge_step, merge_loop, bpe_encode_chunk, max_syms,
}
use tinyllama_c.Tokenizer.Chunk.Best.{pair_rank-lt, IsBest, NoPair, best_pair-IsBest}

-- The text of a list of symbols, when `piece` is the text of each.
unfoldable pub pieces : (ℕ → List ℕ) → List ℕ → List ℕ
pieces piece [] = []
pieces piece (s ∷ ss) = piece s ++ pieces piece ss

pub pieces-append : (p : ℕ → List ℕ) (a b : List ℕ) → pieces p (a ++ b) ≡ pieces p a ++ pieces p b
unfolding pieces
pieces-append p [] b = refl
pieces-append p (x ∷ a) b = rw (pieces-append p a b, append_assoc)

length-merge_at : (s : List ℕ) (i m : ℕ) → i + 1 < length s → length (merge_at s i m) + 1 ≡ length s
unfolding merge_at
length-merge_at [] i m h = absurd (omega arith)
length-merge_at (x ∷ []) zero m h = absurd (omega arith)
length-merge_at (x ∷ y ∷ s) zero m h = omega arith
length-merge_at (x ∷ []) (suc i) m h = absurd (omega arith)
length-merge_at (x ∷ y ∷ s) (suc i) m h = omega (arith, length-merge_at (y ∷ s) i m (omega arith))

merge_at-splice :
    (s : List ℕ) (i m : ℕ)
    → i + 1 < length s
    → merge_at s i m ≡ take i s ++ m ∷ drop (suc (suc i)) s
unfolding merge_at
merge_at-splice [] i m h = absurd (omega arith)
merge_at-splice (x ∷ []) zero m h = absurd (omega arith)
merge_at-splice (x ∷ y ∷ s) zero m h = refl
merge_at-splice (x ∷ []) (suc i) m h = absurd (omega arith)
merge_at-splice (x ∷ y ∷ s) (suc i) m h =
    ap (λ t. x ∷ t) (merge_at-splice (y ∷ s) i m (omega arith))

pieces-merge_at :
    (p : ℕ → List ℕ) (s : List ℕ) (i m : ℕ)
    → i + 1 < length s
    → p m ≡ p (get_or s i 0) ++ p (get_or s (suc i) 0)
    → pieces p (merge_at s i m) ≡ pieces p s
unfolding merge_at pieces
pieces-merge_at p [] i m h e = absurd (omega arith)
pieces-merge_at p (x ∷ []) zero m h e = absurd (omega arith)
pieces-merge_at p (x ∷ y ∷ s) zero m h e = rw e (append_assoc (p x) (p y) (pieces p s))
pieces-merge_at p (x ∷ []) (suc i) m h e = absurd (omega arith)
pieces-merge_at p (x ∷ y ∷ s) (suc i) m h e =
    ap (λ t. p x ++ t) (pieces-merge_at p (y ∷ s) i m (omega arith) e)

-- Every byte of the text has a token.
abbrev pub Covered : Lexicon → List ℕ → Type 0
Covered lex = Every (λ b. is_negative (lex.byte_token_id b) ≡ false)

-- The tokens of the bytes that have one.
abbrev pub byte_tokens : Lexicon → List ℕ → List ℕ
byte_tokens lex [] = []
byte_tokens lex (b ∷ bs) =
    if is_negative (lex.byte_token_id b)
    then byte_tokens lex bs
    else lex.byte_token_id b ∷ byte_tokens lex bs

module _ (lex : Lexicon) where
  byte_symbols-take :
      (room : ℕ) (bs : List ℕ) → byte_symbols lex room bs ≡ take room (byte_tokens lex bs)
  unfolding byte_symbols
  byte_symbols-take room [] = sym (take-nil {A = ℕ} room)
  byte_symbols-take zero (b ∷ bs) = refl
  byte_symbols-take (suc room) (b ∷ bs) =
      ground (arith, byte_symbols-take (suc room) bs, byte_symbols-take room bs)

  -- The token that the vocabulary gives for the pair at `i`.
  abbrev pub merged : List ℕ → ℕ → ℕ
  merged s i = lex.merge_result (get_or s i 0) (get_or s (suc i) 0)

  -- The encoder stops at `s`: no pair has a rank, or the best pair makes no token.
  abbrev pub Stuck : List ℕ → Type 0
  Stuck s = NoPair lex s ⊎ ((k r : ℕ) × IsBest lex s k r × (merged s k ≡ vocab_id_none))

  -- Byte-pair encoding by its rule: replace the leftmost pair of least rank, until stuck.
  pub data Greedy : List ℕ → List ℕ → Type 0 where
    stop : {s : List ℕ} → Stuck s → Greedy s s
    merge :
        {s s' t : List ℕ} (k r : ℕ)
        → IsBest lex s k r
        → merged s k ≢ vocab_id_none
        → s' ≡ take k s ++ merged s k ∷ drop (suc (suc k)) s
        → Greedy s' t
        → Greedy s t

  merge_step-none : (s : List ℕ) → best_pair lex s ≡ none → merge_step lex s ≡ none
  unfolding merge_step
  merge_step-none s e = ground arith

  merge_loop-stop : (f : ℕ) (s : List ℕ) → merge_step lex s ≡ none → merge_loop lex (suc f) s ≡ s
  unfolding merge_loop
  merge_loop-stop f s e = ground arith

  merge_loop-next :
      (f : ℕ) (s : List ℕ) {s' : List ℕ}
      → merge_step lex s ≡ some s'
      → merge_loop lex (suc f) s ≡ merge_loop lex f s'
  unfolding merge_loop
  merge_loop-next f s e = ground arith

  -- One round, by its two outcomes.
  merge_step-cases :
      (s : List ℕ)
      → ((merge_step lex s ≡ none) × Stuck s)
        ⊎ ((k r : ℕ) × (merge_step lex s ≡ some (merge_at s k (merged s k)))
            × IsBest lex s k r
            × (merged s k ≢ vocab_id_none))
  unfolding merge_step
  merge_step-cases s = elim (best_pair-IsBest lex s) [
    | inl (e, bare) ↦ inl (merge_step-none s e, inl bare)
    | inr (k, r, e, best) ↦ elim (Bool-cases (merged s k == vocab_id_none)) [
      | inl absent ↦ inl (ground arith, inr (k, r, best, (==_iff _ _).0 absent))
      | inr present ↦ inr (k, r, ground arith, best, ground arith)
    ]
  ]

  step-lt : {s : List ℕ} {k r : ℕ} → IsBest lex s k r → k + 1 < length s
  step-lt {s} {k} {r} best = pair_rank-lt lex s k r best.ranked

  -- As many rounds as there are symbols are enough: the loop follows the greedy rule to its end.
  pub merge_loop-Greedy : (f : ℕ) (s : List ℕ) → length s ≤ f → Greedy s (merge_loop lex f s)
  unfolding merge_loop
  merge_loop-Greedy zero [] h =
      stop (inl (λ j t h'. absurd (omega (arith, pair_rank-lt lex [] j t h'))))
  merge_loop-Greedy zero (x ∷ s) h = absurd (omega arith)
  merge_loop-Greedy (suc f) s h = elim (merge_step-cases s) [
    | inl (e, stuck) ↦ rw (merge_loop-stop f s e) (stop stuck)
    | inr (k, r, e, best, some_token) ↦ rw (merge_loop-next f s e) (
        merge k r best some_token (merge_at-splice s k _ (step-lt best)) (
          merge_loop-Greedy f (merge_at s k (merged s k))
            (omega (arith, length-merge_at s k (merged s k) (step-lt best)))))
  ]

  length-merge_loop : (f : ℕ) (s : List ℕ) → length (merge_loop lex f s) ≤ length s
  unfolding merge_loop
  length-merge_loop zero s = omega arith
  length-merge_loop (suc f) s = elim (merge_step-cases s) [
    | inl (e, stuck) ↦ rw (merge_loop-stop f s e) (omega arith)
    | inr (k, r, e, best, some_token) ↦ rw (merge_loop-next f s e) (
        omega (
          arith,
          length-merge_at s k (merged s k) (step-lt best),
          length-merge_loop f (merge_at s k (merged s k)),
        ))
  ]

  length-byte_symbols :
      (room : ℕ) (bs : List ℕ)
      → (length (byte_symbols lex room bs) ≤ length bs) × (length (byte_symbols lex room bs) ≤ room)
  unfolding byte_symbols
  length-byte_symbols room [] = omega arith
  length-byte_symbols zero (b ∷ bs) = omega arith
  length-byte_symbols (suc room) (b ∷ bs) =
      ground (arith, length-byte_symbols room bs, length-byte_symbols (suc room) bs)

  module _ (piece : ℕ → List ℕ)
      (joins : (a b : ℕ)
        → lex.merge_result a b ≢ vocab_id_none
        → piece (lex.merge_result a b) ≡ piece a ++ piece b) where
    pieces-merge_loop : (f : ℕ) (s : List ℕ) → pieces piece (merge_loop lex f s) ≡ pieces piece s
    unfolding merge_loop
    pieces-merge_loop zero s = refl
    pieces-merge_loop (suc f) s = elim (merge_step-cases s) [
      | inl (e, stuck) ↦ rw (merge_loop-stop f s e)
      | inr (k, r, e, best, some_token) ↦ rw (merge_loop-next f s e) (
          pieces-merge_loop f (merge_at s k (merged s k))
          ∙ pieces-merge_at piece s k _ (step-lt best) (joins _ _ some_token))
    ]

    pieces-byte_symbols :
        (room : ℕ) (bs : List ℕ)
        → length bs ≤ room
        → Covered lex bs
        → pieces piece (byte_symbols lex room bs) ≡ pieces (λ b. piece (lex.byte_token_id b)) bs
    unfolding byte_symbols pieces
    pieces-byte_symbols room [] h all = refl
    pieces-byte_symbols zero (b ∷ bs) h all = absurd (omega arith)
    pieces-byte_symbols (suc room) (b ∷ bs) h (own, all) =
        ground (arith, pieces-byte_symbols room bs (omega arith) all)

    -- Where every byte of the chunk has a token and neither `syms` nor `out` is too small, the tokens of a chunk
    -- spell its bytes.
    pub bpe_encode_chunk-pieces :
        (chunk : List ℕ) (max_out : ℕ)
        → Covered lex chunk
        → length chunk ≤ max_syms
        → length chunk ≤ max_out
        → pieces piece (bpe_encode_chunk lex chunk max_out)
          ≡ pieces (λ b. piece (lex.byte_token_id b)) chunk
    unfolding bpe_encode_chunk
    bpe_encode_chunk-pieces chunk max_out all small fits =
        let syms = byte_symbols lex max_syms chunk in
        let short = length-merge_loop (length syms) syms in
        rw
          (take-all max_out (merge_loop lex (length syms) syms)
            (omega (arith, short, length-byte_symbols max_syms chunk)))
          (pieces-merge_loop (length syms) syms ∙ pieces-byte_symbols max_syms chunk small all)

  -- Never more tokens than bytes, than `syms` holds, or than the caller has room for.
  pub length-bpe_encode_chunk :
      (chunk : List ℕ) (max_out : ℕ)
      → (length (bpe_encode_chunk lex chunk max_out) ≤ length chunk)
        × (length (bpe_encode_chunk lex chunk max_out) ≤ max_syms)
        × (length (bpe_encode_chunk lex chunk max_out) ≤ max_out)
  unfolding bpe_encode_chunk
  length-bpe_encode_chunk chunk max_out =
      let syms = byte_symbols lex max_syms chunk in
      omega (
        arith,
        length-take max_out (merge_loop lex (length syms) syms),
        length-merge_loop (length syms) syms,
        length-byte_symbols max_syms chunk,
      )

  -- The loop stops at a list that a further round leaves as it is.
  pub merge_loop-done :
      (f : ℕ) (s : List ℕ) → length s ≤ f → merge_step lex (merge_loop lex f s) ≡ none
  unfolding merge_loop
  merge_loop-done zero [] h = unfold merge_step best_pair in refl
  merge_loop-done zero (x ∷ s) h = absurd (omega arith)
  merge_loop-done (suc f) s h = elim (merge_step-cases s) [
    | inl (e, stuck) ↦ rw (merge_loop-stop f s e) e
    | inr (k, r, e, best, some_token) ↦ rw (merge_loop-next f s e) (
        merge_loop-done f (merge_at s k (merged s k))
          (omega (arith, h, length-merge_at s k (merged s k) (step-lt best))))
  ]

  -- With room for as many tokens as the chunk has bytes, the tokens are what the greedy rule makes of
  -- the tokens of the chunk's bytes, of the first 512 where there are more, and a byte without a token
  -- has none.
  pub bpe_encode_chunk-Greedy :
      (chunk : List ℕ) (max_out : ℕ)
      → length chunk ≤ max_out
      → Greedy (take 512 (byte_tokens lex chunk)) (bpe_encode_chunk lex chunk max_out)
  unfolding bpe_encode_chunk
  bpe_encode_chunk-Greedy chunk max_out fits =
      let syms = byte_symbols lex max_syms chunk in
      let short = length-merge_loop (length syms) syms in
      rw
        (take-all max_out (merge_loop lex (length syms) syms)
          (omega (arith, short, length-byte_symbols max_syms chunk)))
        (subst (λ t. Greedy t (merge_loop lex (length syms) syms))
          (byte_symbols-take max_syms chunk) (merge_loop-Greedy (length syms) syms (omega arith)))
