-- ===== src/Http.antt =====
-- Requests and JSON texts, `src/http.c`. A C string is the list of its bytes before the NUL, and a
-- read past the end gives 0.
pub mod Escape
pub mod Request
use tinyllama_c.Prelude.{
  ℕ, zero, suc, ◌+◌, ◌-◌, ◌*◌, ◌/◌, ◌%◌, Bool, true, false, ◌&&◌, ◌||◌, List, [], ◌∷◌, ◌++◌, Option,
  none, some, ltb, leb, ◌==◌, if◌then◌else◌, length, get_or, take, drop,
}
use tinyllama_c.Vocab.Key.{key_eq}

-- The end of the headers.
abbrev pub separator : List ℕ
separator = 13 ∷ 10 ∷ 13 ∷ 10 ∷ []

-- The loop over `i`, counting from `i`; the result is the offset of the body.
unfoldable pub body_from : ℕ → List ℕ → Option ℕ
body_from i [] = none
body_from i (c ∷ cs) =
    let rest = body_from (i + 1) cs in
    if key_eq (take 4 (c ∷ cs)) separator then some (i + 4) else rest

-- NULL for an incomplete request.
unfoldable pub http_body : List ℕ → Option ℕ
http_body req = body_from 0 req

-- A digit of `%x`.
unfoldable pub hex_digit : ℕ → ℕ
hex_digit n = if ltb n 10 then b'0' + n else b'a' + (n - 10)

-- What one byte is written as.
unfoldable pub escape_byte : ℕ → List ℕ
escape_byte c =
    if c == b'"'
    then b'\\' ∷ b'"' ∷ []
    else if c == b'\\'
    then b'\\' ∷ b'\\' ∷ []
    else if c == 10
    then b'\\' ∷ b'n' ∷ []
    else if c == 13
    then b'\\' ∷ b'r' ∷ []
    else if c == 9
    then b'\\' ∷ b't' ∷ []
    else if c == 8
    then b'\\' ∷ b'b' ∷ []
    else if c == 12
    then b'\\' ∷ b'f' ∷ []
    else if ltb c 0x20
    then b'\\' ∷ b'u' ∷ b'0' ∷ b'0' ∷ hex_digit (c / 16) ∷ hex_digit (c % 16) ∷ []
    else c ∷ []

-- The loop, with `w` bytes written so far.
unfoldable pub escape_from : ℕ → ℕ → List ℕ → List ℕ
escape_from out_len w [] = []
escape_from out_len w (c ∷ cs) =
    let rest = escape_from out_len (w + length (escape_byte c)) cs in
    if ltb (w + 6) out_len then escape_byte c ++ rest else []

unfoldable pub json_escape_str : ℕ → List ℕ → List ℕ
json_escape_str out_len text = escape_from out_len 0 text

-- The `switch` on the byte after a backslash: what is written.
unfoldable pub unescape_byte : ℕ → ℕ
unescape_byte c =
    if c == b'n'
    then 10
    else if c == b'r'
    then 13
    else if c == b't'
    then 9
    else if c == b'u'
    then b'?'
    else c

-- The loop on fuel: a round consumes a byte at least. After `\u` four bytes more are passed over.
unfoldable pub unescape_from : ℕ → List ℕ → List ℕ
unescape_from zero src = []
unescape_from (suc f) [] = []
unescape_from (suc f) (c ∷ []) = c ∷ []
unescape_from (suc f) (c ∷ d ∷ cs) = elim (c == b'\\') [
  | true ↦ unescape_byte d ∷ unescape_from f (if d == b'u' then drop 4 cs else cs)
  | false ↦ c ∷ unescape_from f (d ∷ cs)
]

unfoldable pub json_unescape : List ℕ → List ℕ
json_unescape src = unescape_from (length src) src

-- `strstr`: the text from the first occurrence on.
unfoldable pub strstr : List ℕ → List ℕ → Option (List ℕ)
strstr [] pat = if length pat == 0 then some [] else none
strstr (c ∷ cs) pat =
    let rest = strstr cs pat in
    if key_eq (take (length pat) (c ∷ cs)) pat then some (c ∷ cs) else rest

unfoldable pub is_blank : ℕ → Bool
is_blank c = c == b' ' || c == 9 || c == 10 || c == 13

unfoldable pub skip_blanks : List ℕ → List ℕ
skip_blanks [] = []
skip_blanks (c ∷ cs) = let rest = skip_blanks cs in if is_blank c then rest else c ∷ cs

-- `"key"`, where it fits in 128 bytes.
unfoldable pub search_text : List ℕ → Option (List ℕ)
search_text key =
    let search = b'"' ∷ (key ++ b'"' ∷ []) in if ltb (length search) 128 then some search else none

unfoldable pub further : ℕ → Option ℕ → Option ℕ
further k none = none
further k (some n) = some (k + n)

-- The length of a string up to its closing quote, and whether there is one.
unfoldable pub string_length : List ℕ → Option ℕ
string_length [] = none
string_length (c ∷ []) = if c == b'"' then some 0 else none
string_length (c ∷ d ∷ cs) =
    let two = string_length cs in
    let one = string_length (d ∷ cs) in
    if c == b'"' then some 0 else (if c == b'\\' then further 2 two else further 1 one)

-- One place where the key stands: the string after it, or the text to search on.
pub data Candidate : Type 0 where
  value : (start : List ℕ) (len : ℕ) → Candidate
  again : List ℕ → Candidate

-- From the end of the key.
unfoldable pub candidate : List ℕ → Candidate
candidate after =
    let pos = skip_blanks after in
    let pos' = skip_blanks (drop 1 pos) in
    if get_or pos 0 0 == b':'
    then (if get_or pos' 0 0 == b'"'
        then elim (string_length (drop 1 pos')) [
          | some len ↦ value (drop 1 pos') len
          | none ↦ again []
        ]
        else again pos')
    else again pos

-- The loop on fuel; the text left shrinks in each round.
unfoldable pub get_string_from : ℕ → List ℕ → List ℕ → Option (List ℕ × ℕ)
get_string_from zero search json = none
get_string_from (suc f) search json = elim (strstr json search) [
  | none ↦ none
  | some pos ↦ elim (candidate (drop (length search) pos)) [
    | value start len ↦ some (start, len)
    | again rest ↦ get_string_from f search rest
  ]
]

unfoldable pub json_get_string : List ℕ → List ℕ → Option (List ℕ × ℕ)
json_get_string json key = elim (search_text key) [
  | none ↦ none
  | some search ↦ get_string_from (suc (length json)) search json
]
