-- ===== src/Tokenizer/Bpe/Progress.antt =====
-- Every round of `tokenize_bpe` consumes at least one byte of the text, and no more than there are.
use native.Mathlib.Decide.{dec_lt}
use tinyllama_c.Prelude.{
  ℕ, zero, suc, ◌+◌, ◌-◌, ◌≤◌, ◌<◌, ◌≡◌, ◌≢◌, inl, inr, min, false, List, [], ◌∷◌, Option, none,
  some, length, arith, Option-cases,
}
use tinyllama_c.Vocab.Lookup.{is_negative}
use tinyllama_c.Tokenizer.Lexicon.{Lexicon}
use tinyllama_c.Tokenizer.Bpe.{
  char_category, run_length, contraction_length, Round, special, encode, pass, next_word,
  next_space, next_plain, scan_special, match_special_token, next_round,
}

char_category_bounds : (c : ℕ) → (1 ≤ char_category c) × (char_category c ≤ 4)
unfolding char_category
char_category_bounds c = ground arith

run_length-le : (cat : ℕ) (cs : List ℕ) → run_length cat cs ≤ length cs
unfolding run_length
run_length-le cat [] = omega arith
run_length-le cat (c ∷ cs) = ground (arith, run_length-le cat cs)

contraction_length-le : (cs : List ℕ) → 1 < length cs → contraction_length cs ≤ length cs
unfolding contraction_length
contraction_length-le cs h = ground arith

-- A round that is not empty, and stays inside the text.
abbrev pub Advances : List ℕ → Round → Type 0
Advances rest (special id len) = (0 < len) × (len ≤ length rest)
Advances rest (encode len) = (0 < len) × (len ≤ length rest)
Advances rest (pass len) = ⊥

next_word-plain :
    (c : ℕ) (cs : List ℕ) → char_category c ≢ 3 → Advances (c ∷ cs) (next_word (c ∷ cs))
unfolding next_word run_length
next_word-plain c cs h =
    ground
      (arith, char_category_bounds c, run_length-le 1 cs, run_length-le 2 cs, run_length-le 4 cs)

next_word-space :
    (c d : ℕ) (cs : List ℕ)
    → char_category c ≡ 3
    → char_category d ≢ 3
    → Advances (c ∷ d ∷ cs) (next_word (c ∷ d ∷ cs))
unfolding next_word run_length
next_word-space c d cs h k =
    ground
      (arith, char_category_bounds d, run_length-le 1 cs, run_length-le 2 cs, run_length-le 4 cs)

next_space-Advances : (rest : List ℕ) → 0 < length rest → Advances rest (next_space rest)
unfolding next_space run_length
next_space-Advances [] h = absurd (omega arith)
next_space-Advances (c ∷ []) h = ground (arith, next_word-plain c [])
next_space-Advances (c ∷ d ∷ cs) h =
    ground (arith, next_word-plain c (d ∷ cs), next_word-space c d cs, run_length-le 3 cs)

next_plain-Advances : (rest : List ℕ) → 0 < length rest → Advances rest (next_plain rest)
unfolding next_plain
next_plain-Advances rest h = ground (arith, next_space-Advances rest h, contraction_length-le rest)

module _ (lex : Lexicon) where
  abbrev InText : List ℕ → Option (ℕ × ℕ) → Type 0
  InText text o = (id len : ℕ) → o ≡ some (id, len) → (0 < len) × (len ≤ length text)

  scan_special-InText :
      (text : List ℕ) (rounds len : ℕ) (best : Option (ℕ × ℕ))
      → 0 < len
      → len + rounds ≤ length text + 1
      → InText text best
      → InText text (scan_special lex text rounds len best)
  unfolding scan_special
  scan_special-InText text zero len best pos room h = h
  scan_special-InText text (suc rounds) len best pos room h =
      scan_special-InText text rounds (len + 1) _ (omega arith) (omega arith)
        (λ id n e. ground (arith, h id n))

  match_special_token-InText : (text : List ℕ) → InText text (match_special_token lex text)
  unfolding match_special_token
  match_special_token-InText text id len e = elim (dec_lt (length text) 3) [
    | yes short ↦ absurd (ground arith)
    | no enough ↦ ground (
      arith,
      scan_special-InText text (min (length text) 64 - 1) 2 none (omega arith) (omega arith)
          (λ i n (absent : none ≡ some (i, n)). cc) id len,
    )
  ]

  -- On a text that is not empty, a round consumes at least one byte, and no more than there are.
  pub next_round-Advances : (rest : List ℕ) → 0 < length rest → Advances rest (next_round lex rest)
  unfolding next_round
  next_round-Advances rest h = elim (Option-cases (match_special_token lex rest)) [
    | inl e ↦ ground (arith, next_plain-Advances rest h)
    | inr ((id, len), e) ↦
        ground (arith, next_plain-Advances rest h, match_special_token-InText rest id len e)
  ]

  next_plain-special : (rest : List ℕ) (id len : ℕ) → next_plain rest ≢ special id len
  unfolding next_plain next_space next_word
  next_plain-special rest id len e = ground arith

  -- A special token comes from its match, and has an id that is not negative.
  pub next_round-special :
      (rest : List ℕ) (id len : ℕ)
      → next_round lex rest ≡ special id len
      → (match_special_token lex rest ≡ some (id, len)) × (is_negative id ≡ false)
  unfolding next_round
  next_round-special rest id len e = ground (arith, next_plain-special rest id len)
