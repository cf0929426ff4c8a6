-- ===== src/Tokenizer/Spm/Merges.antt =====
-- The merge loop of the SentencePiece encoder: it keeps the text, and ends when no two neighbours
-- make a known piece.
use mathlib.Core.List.{append_assoc}
use native.Mathlib.Decide.{dec_lt}
use tinyllama_c.Prelude.{
  ℕ, zero, suc, ◌+◌, ◌≤◌, ◌<◌, ◌≡◌, ◌⊎◌, inl, inr, refl, ap, ◌∙◌, Bool, List, [], ◌∷◌, ◌++◌, none,
  some, ltb, length, get_or, take, drop, arith, Option-cases, Bool-cases, ◌||◌, ◌&&◌,
  take-append-drop, length-drop, length-take, length-append,
}
use tinyllama_c.Tokenizer.Lexicon.{Lexicon}
use tinyllama_c.Tokenizer.Spm.{
  utf8_char_len, char_width, split_chars, better, try_pair, scan_pairs, best_join, join_at,
  join_loop, Best,
}

-- The text of the symbols.
unfoldable pub concat : List (List ℕ) → List ℕ
concat [] = []
concat (s ∷ ss) = s ++ concat ss

char_width_bounds :
    (c : ℕ) (cs : List ℕ)
    → (0 < char_width (c ∷ cs))
      × (char_width (c ∷ cs) ≤ length (c ∷ cs))
      × (char_width (c ∷ cs) ≤ 4)
unfolding char_width utf8_char_len
char_width_bounds c cs = ground arith

-- Splitting into characters loses nothing, and makes no empty character.
pub split_chars-concat :
    (f : ℕ) (rest : List ℕ)
    → length rest ≤ f
    → (concat (split_chars f rest) ≡ rest) × (length (split_chars f rest) ≤ length rest)
unfolding split_chars concat
split_chars-concat zero [] h = (refl, omega arith)
split_chars-concat zero (c ∷ cs) h = absurd (omega arith)
split_chars-concat (suc f) [] h = (refl, omega arith)
split_chars-concat (suc f) (c ∷ cs) h =
    let n = char_width (c ∷ cs) in
    let (e, l) =
      split_chars-concat f (drop n (c ∷ cs))
        (omega (arith, char_width_bounds c cs, length-drop n (c ∷ cs))) in
    (
      ap (λ t. take n (c ∷ cs) ++ t) e ∙ take-append-drop n (c ∷ cs),
      omega (arith, l, char_width_bounds c cs, length-drop n (c ∷ cs)),
    )

-- No symbol is empty, nor longer than a key can be.
abbrev pub Sized : List (List ℕ) → Type 0
Sized [] = Unit {0}
Sized (s ∷ ss) = ((0 < length s) × (length s ≤ 255)) × Sized ss

pub split_chars-Sized : (f : ℕ) (rest : List ℕ) → Sized (split_chars f rest)
unfolding split_chars
split_chars-Sized zero rest = tt
split_chars-Sized (suc f) [] = tt
split_chars-Sized (suc f) (c ∷ cs) =
    let n = char_width (c ∷ cs) in
    (
      omega (arith, char_width_bounds c cs, length-take n (c ∷ cs)),
      split_chars-Sized f (drop n (c ∷ cs)),
    )

-- The two symbols at `i` are together no longer than a key can be.
abbrev ShortAt : ℕ → List (List ℕ) → Type 0
ShortAt i syms = length (get_or syms i []) + length (get_or syms (suc i) []) ≤ 255

join_at-Sized :
    (i : ℕ) (syms : List (List ℕ)) → ShortAt i syms → Sized syms → Sized (join_at i syms)
unfolding join_at
join_at-Sized i [] short h = h
join_at-Sized i (l ∷ []) short h = h
join_at-Sized zero (l ∷ r ∷ rs) short (pos, (_, rest)) = (omega (arith, length-append l r), rest)
join_at-Sized (suc i) (l ∷ r ∷ rs) short (pos, rest) = (pos, join_at-Sized i (r ∷ rs) short rest)

concat-join_at : (i : ℕ) (syms : List (List ℕ)) → concat (join_at i syms) ≡ concat syms
unfolding join_at concat
concat-join_at i [] = refl
concat-join_at i (l ∷ []) = refl
concat-join_at zero (l ∷ r ∷ rs) = append_assoc l r (concat rs)
concat-join_at (suc i) (l ∷ r ∷ rs) = ap (λ t. l ++ t) (concat-join_at i (r ∷ rs))

length-join_at :
    (i : ℕ) (syms : List (List ℕ)) → i + 1 < length syms → length (join_at i syms) + 1 ≡ length syms
unfolding join_at
length-join_at i [] h = absurd (omega arith)
length-join_at i (l ∷ []) h = absurd (omega arith)
length-join_at zero (l ∷ r ∷ rs) h = omega arith
length-join_at (suc i) (l ∷ r ∷ rs) h = omega (arith, length-join_at i (r ∷ rs) (omega arith))

module _ (float_gt float_eq : ℕ → ℕ → Bool) (lex : Lexicon) (n_vocab : ℕ) (scores : List ℕ) where
  -- Two neighbours whose texts joined are a known piece that a key can hold.
  pub record Joins (l r : List ℕ) : Type 0 where
    pub short : length l + length r ≤ 255
    pub id : ℕ
    pub known : lex.lookup_len (l ++ r) (length l + length r) ≡ some id
    pub small : id < n_vocab

  -- No neighbours join.
  pub data Settled : List (List ℕ) → Type 0 where
    empty : Settled []
    single : (s : List ℕ) → Settled (s ∷ [])
    more :
        (l r : List ℕ) (rs : List (List ℕ))
        → (Joins l r → ⊥)
        → Settled (r ∷ rs)
        → Settled (l ∷ r ∷ rs)

  abbrev try : List ℕ → List ℕ → ℕ → Best → Best
  try = try_pair float_gt float_eq lex n_vocab scores

  abbrev scan : List ℕ → List (List ℕ) → ℕ → Best → Best
  scan = scan_pairs float_gt float_eq lex n_vocab scores

  -- A try gives this position, or leaves the best pair.
  try_pair-cases :
      (l r : List ℕ) (i : ℕ) (best : Best)
      → ((s : ℕ) × (try l r i best ≡ some (i, s)) × (length l + length r ≤ 255))
        ⊎ ((try l r i best ≡ best) × ((best ≡ none) → Joins l r → ⊥))
  unfolding try_pair better
  try_pair-cases l r i none = elim (Option-cases (lex.lookup_len (l ++ r) (length l + length r))) [
    | inl e ↦ inr (ground arith, λ p j. ground (arith, j.known))
    | inr (id, e) ↦ elim (dec_lt id n_vocab) [
      | no out ↦ inr (ground arith, λ p j. ground (arith, j.known, j.small))
      | yes fits ↦ elim (dec_lt 255 (length l + length r)) [
        | yes long ↦ inr (ground arith, λ p j. absurd (omega (arith, j.short)))
        | no short ↦ inl (get_or scores id 0, ground arith, omega arith)
      ]
    ]
  ]
  try_pair-cases l r i (some (b, bs)) =
      elim (Option-cases (lex.lookup_len (l ++ r) (length l + length r))) [
        | inl e ↦ inr (ground arith, λ p j. cc)
        | inr (id, e) ↦
            elim (Bool-cases
              (float_gt (get_or scores id 0) bs || (float_eq (get_or scores id 0) bs && ltb i b))) [
                | inr worse ↦ inr (ground arith, λ p j. cc)
                | inl wins ↦ elim (dec_lt id n_vocab) [
                  | no out ↦ inr (ground arith, λ p j. cc)
                  | yes fits ↦ elim (dec_lt 255 (length l + length r)) [
                    | yes long ↦ inr (ground arith, λ p j. cc)
                    | no short ↦ inl (get_or scores id 0, ground arith, omega arith)
                  ]
                ]
              ]
      ]

  -- A scan gives a position in the list, or leaves the best pair, and then nothing joins.
  scan_pairs-cases :
      (l : List ℕ) (rs : List (List ℕ)) (i : ℕ) (best : Best)
      → ((k s : ℕ) × (scan l rs i best ≡ some (i + k, s)) × (k < length rs) × ShortAt k (l ∷ rs))
        ⊎ ((scan l rs i best ≡ best) × ((best ≡ none) → Settled (l ∷ rs)))
  unfolding scan_pairs
  scan_pairs-cases l [] i best = inr (refl, λ p. single l)
  scan_pairs-cases l (r ∷ rs) i best = elim (try_pair-cases l r i best) [
    | inl (s, e, short) ↦ elim (scan_pairs-cases r rs (i + 1) (some (i, s))) [
      | inl (k, s', e', lt, fits) ↦ inl (suc k, s', rw e (ground arith), omega arith, fits)
      | inr (e', _) ↦ inl (0, s, rw e (ground arith), omega arith, short)
    ]
    | inr (e, apart) ↦ elim (scan_pairs-cases r rs (i + 1) best) [
      | inl (k, s', e', lt, fits) ↦ inl (suc k, s', rw e (ground arith), omega arith, fits)
      | inr (e', settled) ↦ inr (rw e e', λ p. more l r rs (λ j. apart p j) (settled p))
    ]
  ]

  best_join-cases :
      (syms : List (List ℕ))
      → ((k s : ℕ) × (best_join float_gt float_eq lex n_vocab scores syms ≡ some (k, s))
          × (k + 1 < length syms)
          × ShortAt k syms)
        ⊎ ((best_join float_gt float_eq lex n_vocab scores syms ≡ none) × Settled syms)
  unfolding best_join
  best_join-cases [] = inr (refl, empty)
  best_join-cases (l ∷ rs) = elim (scan_pairs-cases l rs 0 none) [
    | inl (k, s, e, lt, short) ↦ inl (k, s, ground arith, omega arith, short)
    | inr (e, settled) ↦ inr (e, settled refl)
  ]

  abbrev loop : ℕ → List (List ℕ) → List (List ℕ)
  loop = join_loop float_gt float_eq lex n_vocab scores

  join_loop-stop :
      (f : ℕ) (s : List (List ℕ))
      → best_join float_gt float_eq lex n_vocab scores s ≡ none
      → loop (suc f) s ≡ s
  unfolding join_loop
  join_loop-stop f s e = ground arith

  join_loop-next :
      (f : ℕ) (s : List (List ℕ)) (k sc : ℕ)
      → best_join float_gt float_eq lex n_vocab scores s ≡ some (k, sc)
      → loop (suc f) s ≡ loop f (join_at k s)
  unfolding join_loop
  join_loop-next f s k sc e = ground arith

  -- With as many rounds as there are symbols, the loop ends with no neighbours to join, and the
  -- symbols cover the same text.
  pub join_loop-Settled :
      (f : ℕ) (syms : List (List ℕ))
      → length syms ≤ f
      → Settled (join_loop float_gt float_eq lex n_vocab scores f syms)
        × (concat (join_loop float_gt float_eq lex n_vocab scores f syms) ≡ concat syms)
  unfolding join_loop
  join_loop-Settled zero [] h = (empty, refl)
  join_loop-Settled zero (s ∷ ss) h = absurd (omega arith)
  join_loop-Settled (suc f) syms h = elim (best_join-cases syms) [
    | inr (e, settled) ↦ rw (join_loop-stop f syms e) (settled, refl)
    | inl (k, sc, e, lt, short) ↦
        let (settled, same) =
          join_loop-Settled f (join_at k syms) (omega (arith, length-join_at k syms lt)) in
        rw (join_loop-next f syms k sc e) (settled, same ∙ concat-join_at k syms)
  ]

  pub join_loop-Sized :
      (f : ℕ) (syms : List (List ℕ))
      → Sized syms
      → Sized (join_loop float_gt float_eq lex n_vocab scores f syms)
  unfolding join_loop
  join_loop-Sized zero syms h = h
  join_loop-Sized (suc f) syms h = elim (best_join-cases syms) [
    | inr (e, _) ↦ rw (join_loop-stop f syms e) h
    | inl (k, sc, e, lt, short) ↦
        rw (join_loop-next f syms k sc e)
          (join_loop-Sized f (join_at k syms) (join_at-Sized k syms short h))
  ]
