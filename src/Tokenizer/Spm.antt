-- ===== src/Tokenizer/Spm.antt =====
-- `tokenize_spm` of `src/tokenizer.c`: the text is split into characters, and neighbours are merged
-- into the known piece of the highest score. The linked list of symbols is the list of their texts:
-- each symbol covers the bytes after those of the one before it. Scores are the bit patterns of
-- floats, and the comparisons of C on them are the parameters `float_gt` and `float_eq`.
pub mod Merges
pub mod Spell
pub mod Prefix
use tinyllama_c.Prelude.{
  ℕ, zero, suc, ◌+◌, ◌-◌, Bool, true, false, ◌&&◌, ◌||◌, List, [], ◌∷◌, ◌++◌, Option, none, some,
  ltb, leb, ◌==◌, if◌then◌else◌, bit_and, length, get_or, take, drop,
}
use tinyllama_c.Vocab.Lookup.{Vocab, is_negative}
use tinyllama_c.Tokenizer.Lexicon.{Lexicon, lexicon}
use tinyllama_c.Tokenizer.Bpe.{tokenize_bpe}

unfoldable pub utf8_char_len : ℕ → ℕ
utf8_char_len c =
    if ltb c 0x80
    then 1
    else if bit_and c 0xE0 == 0xC0
    then 2
    else if bit_and c 0xF0 == 0xE0
    then 3
    else if bit_and c 0xF8 == 0xF0
    then 4
    else 1

-- U+2581, the mark of a word's beginning.
abbrev pub boundary : List ℕ
boundary = 0xE2 ∷ 0x96 ∷ 0x81 ∷ []

unfoldable pub escape_spaces : List ℕ → List ℕ
escape_spaces [] = []
escape_spaces (c ∷ cs) = (if c == b' ' then boundary else c ∷ []) ++ escape_spaces cs

unfoldable pub normalize : List ℕ → Bool → List ℕ
normalize text add_prefix_space = (if add_prefix_space then boundary else []) ++ escape_spaces text

-- `if (off + cl > nn) cl = 1;`
unfoldable pub char_width : List ℕ → ℕ
char_width rest = let cl = utf8_char_len (get_or rest 0 0) in if ltb (length rest) cl then 1 else cl

-- The loop over `off`, on fuel: a character is a byte at least.
unfoldable pub split_chars : ℕ → List ℕ → List (List ℕ)
split_chars zero rest = []
split_chars (suc f) [] = []
split_chars (suc f) (c ∷ cs) =
    let n = char_width (c ∷ cs) in take n (c ∷ cs) ∷ split_chars f (drop n (c ∷ cs))

-- The best pair so far: its position and its score.
abbrev pub Best : Type 0
Best = Option (ℕ × ℕ)

-- `sym[best].n += sym[r].n`, and `r` leaves the list.
unfoldable pub join_at : ℕ → List (List ℕ) → List (List ℕ)
join_at i [] = []
join_at i (l ∷ []) = l ∷ []
join_at zero (l ∷ r ∷ rs) = (l ++ r) ∷ rs
join_at (suc i) (l ∷ r ∷ rs) = l ∷ join_at i (r ∷ rs)

module _ (lex : Lexicon) (max_tokens : ℕ) where
  -- `if (n < max_tokens) tokens[n++] = id`
  unfoldable pub push_token : List ℕ → ℕ → List ℕ
  push_token tokens id = if ltb (length tokens) max_tokens then tokens ++ id ∷ [] else tokens

  -- `if (bid >= 0 && n < max_tokens) tokens[n++] = bid`
  unfoldable pub push_byte : List ℕ → ℕ → List ℕ
  push_byte tokens b =
      if is_negative (lex.byte_token_id b) then tokens else push_token tokens (lex.byte_token_id b)

  unfoldable pub emit_bytes : List ℕ → List ℕ → List ℕ
  emit_bytes tokens [] = tokens
  emit_bytes tokens (b ∷ bs) = emit_bytes (push_byte tokens b) bs

  unfoldable pub emit_symbol : List ℕ → List ℕ → List ℕ
  emit_symbol tokens sym = elim (lex.lookup_len sym (length sym)) [
    | some id ↦ push_token tokens id
    | none ↦ emit_bytes tokens sym
  ]

  unfoldable pub emit_symbols : List ℕ → List (List ℕ) → List ℕ
  emit_symbols tokens [] = tokens
  emit_symbols tokens (s ∷ ss) = emit_symbols (emit_symbol tokens s) ss

module _ (float_gt float_eq : ℕ → ℕ → Bool) where
  -- `if (best < 0 || sc > best_score || (sc == best_score && i < best))`
  unfoldable pub better : ℕ → ℕ → Best → Best
  better i sc none = some (i, sc)
  better i sc (some (best, best_score)) =
      if float_gt sc best_score || (float_eq sc best_score && ltb i best)
      then some (i, sc)
      else some (best, best_score)

  module _ (lex : Lexicon) (n_vocab : ℕ) (scores : List ℕ) where
    -- One turn of the `for`: the neighbours `l` and `r`.
    unfoldable pub try_pair : List ℕ → List ℕ → ℕ → Best → Best
    try_pair l r i best =
        let len = length l + length r in
        if ltb 255 len then best else elim (lex.lookup_len (l ++ r) len) [
          | none ↦ best
          | some id ↦ if leb n_vocab id then best else better i (get_or scores id 0) best
        ]

    unfoldable pub scan_pairs : List ℕ → List (List ℕ) → ℕ → Best → Best
    scan_pairs l [] i best = best
    scan_pairs l (r ∷ rs) i best = scan_pairs r rs (i + 1) (try_pair l r i best)

    unfoldable pub best_join : List (List ℕ) → Best
    best_join [] = none
    best_join (l ∷ rs) = scan_pairs l rs 0 none

    unfoldable pub join_loop : ℕ → List (List ℕ) → List (List ℕ)
    join_loop zero syms = syms
    join_loop (suc f) syms = elim (best_join syms) [
      | none ↦ syms
      | some (i, score) ↦ join_loop f (join_at i syms)
    ]

  -- The symbols that are emitted.
  unfoldable pub spm_symbols : Vocab → List ℕ → List ℕ → Bool → List (List ℕ)
  spm_symbols v scores text add_prefix_space =
      let norm = normalize text add_prefix_space in
      let chars = split_chars (length norm) norm in
      join_loop (lexicon v) v.n_vocab scores (length chars) chars

  unfoldable pub tokenize_spm : Vocab → List ℕ → ℕ → Bool → Option (List ℕ)
  tokenize_spm v text max_tokens add_prefix_space = elim v.scores [
    | none ↦ tokenize_bpe (lexicon v) text max_tokens
    | some scores ↦
        some (emit_symbols (lexicon v) max_tokens [] (spm_symbols v scores text add_prefix_space))
  ]
