-- ===== src/Tokenizer/Bpe.antt =====
-- `tokenize_bpe` of `src/tokenizer.c`. The text from `pos` on is the list `rest`, so `text_len - pos`
-- is its length and `pos += k` drops `k` bytes.
pub mod Progress
pub mod Special
pub mod Loop
use tinyllama_c.Prelude.{
  ℕ, zero, suc, ◌+◌, ◌-◌, min, Bool, true, false, not, ◌&&◌, ◌||◌, List, [], ◌∷◌, ◌++◌, Option,
  none, some, ltb, leb, ◌==◌, if◌then◌else◌, length, get_or, take, drop,
}
use tinyllama_c.Vocab.Lookup.{is_negative}
use tinyllama_c.Tokenizer.Lexicon.{Lexicon}
use tinyllama_c.Tokenizer.Chunk.{bpe_encode_chunk}

-- `BPE_MAX_SYMBOLS`
abbrev pub bpe_max_symbols : ℕ
bpe_max_symbols = 4096

-- The classes of `isalpha`, `isdigit` and `isspace` in the C locale.
is_alpha : ℕ → Bool
is_alpha c = (leb b'A' c && leb c b'Z') || (leb b'a' c && leb c b'z')

is_digit : ℕ → Bool
is_digit c = leb b'0' c && leb c b'9'

is_space : ℕ → Bool
is_space c = c == b' ' || (leb 9 c && leb c 13)

-- 1 letter, 2 digit, 3 whitespace, 4 other.
unfoldable pub char_category : ℕ → ℕ
unfolding is_alpha is_digit is_space
char_category c =
    if leb 0x80 c
    then 1
    else if is_alpha c
    then 1
    else if is_digit c
    then 2
    else if is_space c
    then 3
    else 4

-- `while (pos < text_len && char_category(text[pos]) == cat) pos++`, as the number of steps.
unfoldable pub run_length : ℕ → List ℕ → ℕ
run_length cat [] = 0
run_length cat (c ∷ cs) = if char_category c == cat then suc (run_length cat cs) else 0

-- `clen`, for a text that begins with an apostrophe; a byte past the end is never equal to one.
third_is : ℕ → List ℕ → Bool
third_is c rest = ltb 2 (length rest) && get_or rest 2 0 == c

unfoldable pub contraction_length : List ℕ → ℕ
unfolding third_is
contraction_length rest =
    let nxt = get_or rest 1 0 in
    if nxt == b's' || nxt == b't' || nxt == b'm' || nxt == b'd'
    then 2
    else if (nxt == b'r' || nxt == b'v') && third_is b'e' rest
    then 3
    else if nxt == b'l' && third_is b'l' rest
    then 3
    else 0

-- What one round of the loop does at `pos`.
pub data Round : Type 0 where
  special : (id len : ℕ) → Round
  encode : (len : ℕ) → Round
  pass : (len : ℕ) → Round

-- The non-whitespace part of a round: an optional leading space, then a run of one category.
unfoldable pub next_word : List ℕ → Round
next_word rest =
    let space = if ltb 0 (length rest) && char_category (get_or rest 0 0) == 3 then 1 else 0 in
    let word = drop space rest in
    let cat = char_category (get_or word 0 0) in
    let len = space + run_length (if cat == 1 then 1 else if cat == 2 then 2 else 4) word in
    if length word == 0 then pass space else if len == 0 then pass 0 else encode len

-- The whitespace part: a run of it is a chunk, but for a single byte before something else.
unfoldable pub next_space : List ℕ → Round
next_space rest =
    let ws_len = run_length 3 rest in
    if char_category (get_or rest 0 0) == 3 && (not (ws_len == 1) || leb (length rest) ws_len)
    then encode ws_len
    else next_word rest

unfoldable pub next_plain : List ℕ → Round
next_plain rest =
    let clen = contraction_length rest in
    if get_or rest 0 0 == b'\'' && ltb 1 (length rest) && ltb 0 clen
    then encode clen
    else next_space rest

module _ (lex : Lexicon) where
  -- The loop over `len`, with the rounds left, and the best pair of id and length so far.
  unfoldable pub scan_special : List ℕ → ℕ → ℕ → Option (ℕ × ℕ) → Option (ℕ × ℕ)
  scan_special text zero len best = best
  scan_special text (suc rounds) len best =
      scan_special text rounds (len + 1)
        (elim (lex.lookup_len text len) [ none ↦ best | some id ↦ some (id, len) ])

  -- The longest vocabulary entry, of 2 to 64 bytes, that the text begins with, after `<|`.
  unfoldable pub match_special_token : List ℕ → Option (ℕ × ℕ)
  unfolding scan_special
  match_special_token text =
      if ltb (length text) 3
      then none
      else if not (get_or text 0 0 == b'<') || not (get_or text 1 0 == b'|')
      then none
      else scan_special text (min (length text) 64 - 1) 2 none

  unfoldable pub next_round : List ℕ → Round
  next_round rest = elim (match_special_token rest) [
    | none ↦ next_plain rest
    | some (id, len) ↦ if is_negative id then next_plain rest else special id len
  ]

  -- The loop on fuel, with the symbols so far; `none` means that the fuel ran out.
  unfoldable pub tokenize_loop : ℕ → List ℕ → List ℕ → Option (List ℕ)
  tokenize_loop zero symbols rest = none
  tokenize_loop (suc f) symbols rest =
      if not (ltb 0 (length rest)) || leb bpe_max_symbols (length symbols)
      then some symbols
      else elim (next_round rest) [
        | special id len ↦ tokenize_loop f (symbols ++ id ∷ []) (drop len rest)
        | pass len ↦ tokenize_loop f symbols (drop len rest)
        | encode len ↦
            tokenize_loop f
              (symbols ++ bpe_encode_chunk lex (take len rest) (bpe_max_symbols - length symbols))
              (drop len rest)
      ]

  -- Every round consumes a byte, so the length of the text is fuel enough.
  unfoldable pub tokenize_bpe : List ℕ → ℕ → Option (List ℕ)
  tokenize_bpe text max_tokens = elim (tokenize_loop (suc (length text)) [] text) [
    | none ↦ none
    | some symbols ↦ some (take max_tokens symbols)
  ]
