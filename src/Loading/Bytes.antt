-- ===== src/Loading/Bytes.antt =====
-- The tokens of single bytes, `src/core.c`: GPT-2's printable code points, and the pieces `<0xHH>`.
use mathlib.Core.Option
use tinyllama_c.Prelude.{
  ℕ, zero, suc, ◌+◌, ◌-◌, ◌*◌, ◌/◌, ◌%◌, Bool, ◌&&◌, ◌||◌, not, List, [], ◌∷◌, Option, none, some,
  ltb, leb, ◌==◌, if◌then◌else◌, bit_or, length, get_or, set,
}
use tinyllama_c.Vocab.Key.{Key}
use tinyllama_c.Vocab.Lookup.{Vocab, vocab_id_none, vocab_lookup_len}
use tinyllama_c.Gguf.Cursor.{Cursor, cursor_u32}

-- A byte that stands for itself.
unfoldable pub is_self : ℕ → Bool
is_self b = (leb 33 b && leb b 126) || (leb 161 b && leb b 172) || (leb 174 b && leb b 255)

-- How many bytes below `b` do not stand for themselves.
unfoldable pub count_mapped : ℕ → ℕ
count_mapped zero = 0
count_mapped (suc b) = if is_self b then count_mapped b else suc (count_mapped b)

unfoldable pub code_point : ℕ → ℕ
code_point b = if is_self b then b else 256 + count_mapped b

unfoldable pub utf8_encode : ℕ → List ℕ
utf8_encode cp =
    if ltb cp 0x80
    then cp ∷ []
    else if ltb cp 0x800
    then bit_or 0xC0 (cp / 64) ∷ bit_or 0x80 (cp % 64) ∷ []
    else bit_or 0xE0 (cp / 4096) ∷ bit_or 0x80 (cp / 64 % 64) ∷ bit_or 0x80 (cp % 64) ∷ []

unfoldable pub bpe_byte_id : Vocab → ℕ → Option ℕ
bpe_byte_id v b =
    let utf8 = utf8_encode (code_point b) in
    Option.map (λ r. Option.get_or r vocab_id_none) (vocab_lookup_len v utf8 (length utf8))

-- The loop over the bytes, `rounds` of them from `b` on.
unfoldable pub bpe_ids_from : Vocab → ℕ → ℕ → Option (List ℕ)
bpe_ids_from v zero b = some []
bpe_ids_from v (suc rounds) b =
    Option.bind (bpe_byte_id v b)
      (λ id. Option.map (λ ids. id ∷ ids) (bpe_ids_from v rounds (b + 1)))

unfoldable pub bpe_byte_ids : Vocab → Option (List ℕ)
bpe_byte_ids v = bpe_ids_from v 256 0

-- `none` for -1.
unfoldable pub spm_hex_digit : ℕ → Option ℕ
spm_hex_digit c =
    if leb b'0' c && leb c b'9'
    then some (c - b'0')
    else if leb b'a' c && leb c b'f'
    then some (c - b'a' + 10)
    else if leb b'A' c && leb c b'F'
    then some (c - b'A' + 10)
    else none

unfoldable pub spm_byte_token_value : Key → Option ℕ
spm_byte_token_value k =
    if not (length k == 6)
    then none
    else if get_or k 0 0 == b'<'
        && get_or k 1 0 == b'0'
        && get_or k 2 0 == b'x'
        && get_or k 5 0 == b'>'
    then Option.bind (spm_hex_digit (get_or k 3 0))
        (λ hi. Option.map (λ lo. hi * 16 + lo) (spm_hex_digit (get_or k 4 0)))
    else none

-- One piece: its number is the id of its byte.
unfoldable pub note_byte : ℕ → Key → List ℕ → List ℕ
note_byte i k ids = elim (spm_byte_token_value k) [ none ↦ ids | some b ↦ set ids b i ]

-- Without token types, every piece counts.
unfoldable pub spm_byte_ids : ℕ → List Key → List ℕ → List ℕ
spm_byte_ids i [] ids = ids
spm_byte_ids i (k ∷ ks) ids = spm_byte_ids (i + 1) ks (note_byte i k ids)

-- With token types, only type 6 counts; a type that cannot be read ends the loop.
unfoldable pub typed_byte_ids : ℕ → List Key → Cursor → List ℕ → List ℕ
typed_byte_ids i [] c ids = ids
typed_byte_ids i (k ∷ ks) c ids =
    let (r, c') = cursor_u32 c in
    elim r [
      | none ↦ ids
      | some t ↦ typed_byte_ids (i + 1) ks c' (if t == 6 then note_byte i k ids else ids)
    ]
