-- ===== src/Server/Utf8.antt =====
-- `utf8_complete_prefix` of `src/server.c`: how much of a buffer ends on a complete character.
use tinyllama_c.Prelude.{
  ℕ, zero, suc, ◌+◌, ◌≤◌, true, false, List, [], ◌∷◌, ltb, leb, ◌==◌, Bool, ◌&&◌, ◌<◌, Every,
  if◌then◌else◌, bit_and, length, take, drop, arith, length-drop,
}

-- The bytes that a leading byte asks for; a byte that leads nothing is passed over alone.
unfoldable pub utf8_need : ℕ → ℕ
utf8_need c =
    if ltb c 0x80
    then 1
    else if bit_and c 0xE0 == 0xC0
    then 2
    else if bit_and c 0xF0 == 0xE0
    then 3
    else if bit_and c 0xF8 == 0xF0
    then 4
    else 1

-- The loop on fuel: how far `i` moves over the text from it on.
unfoldable pub prefix_from : ℕ → List ℕ → ℕ
prefix_from zero rest = 0
prefix_from (suc f) [] = 0
prefix_from (suc f) (c ∷ cs) = elim (ltb (length (c ∷ cs)) (utf8_need c)) [
  | true ↦ 0
  | false ↦ utf8_need c + prefix_from f (drop (utf8_need c) (c ∷ cs))
]

-- Each round consumes a byte at least.
unfoldable pub utf8_complete_prefix : List ℕ → ℕ
utf8_complete_prefix buf = prefix_from (length buf) buf

utf8_need_bounds : (c : ℕ) → (1 ≤ utf8_need c) × (utf8_need c ≤ 4)
unfolding utf8_need
utf8_need_bounds c = ground arith

prefix_from_bounds :
    (f : ℕ) (rest : List ℕ)
    → length rest ≤ f
    → (prefix_from f rest ≤ length rest) × (length rest ≤ prefix_from f rest + 3)
unfolding prefix_from
prefix_from_bounds zero rest h = omega arith
prefix_from_bounds (suc f) [] h = omega arith
prefix_from_bounds (suc f) (c ∷ cs) h =
    let n = utf8_need c in
    ground (
      arith,
      utf8_need_bounds c,
      length-drop n (c ∷ cs),
      prefix_from_bounds f (drop n (c ∷ cs))
          (omega (arith, utf8_need_bounds c, length-drop n (c ∷ cs))),
    )

-- The prefix lies in the buffer, and at most three bytes are held back.
pub utf8_complete_prefix_bounds :
    (buf : List ℕ)
    → (utf8_complete_prefix buf ≤ length buf) × (length buf ≤ utf8_complete_prefix buf + 3)
unfolding utf8_complete_prefix
utf8_complete_prefix_bounds buf = prefix_from_bounds (length buf) buf (omega arith)

-- The length of the sequence that a byte leads in UTF-8, by the ranges of the leading bytes; a byte
-- that leads none stands alone.
abbrev pub width : ℕ → ℕ
width c =
    if leb 0xC0 c && leb c 0xDF
    then 2
    else if leb 0xE0 c && leb c 0xEF
    then 3
    else if leb 0xF0 c && leb c 0xF7
    then 4
    else 1

need_below : ℕ → Bool
need_below zero = true
need_below (suc n) = utf8_need n == width n && need_below n

-- A text made of whole sequences.
pub data Complete : List ℕ → Type 0 where
  done : Complete []
  more :
      (c : ℕ) (cs : List ℕ)
      → width c ≤ length (c ∷ cs)
      → Complete (drop (width c) (c ∷ cs))
      → Complete (c ∷ cs)

-- A text that begins with a sequence that is not whole, if it is not empty.
abbrev pub CutShort : List ℕ → Type 0
CutShort [] = Unit {0}
CutShort (c ∷ cs) = length (c ∷ cs) < width c

abbrev pub Bytes : List ℕ → Type 0
Bytes = Every (λ b. b < 256)

-- The prefix is whole, and what is left begins with a sequence that is not.
Cut : ℕ → List ℕ → Type 0
Cut n rest = Complete (take n rest) × CutShort (drop n rest)
