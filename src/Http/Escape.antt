-- ===== src/Http/Escape.antt =====
-- Escaping for JSON stays inside its buffer, and unescaping undoes it.
use native.Mathlib.Decide.{dec_lt}
use tinyllama_c.Prelude.{
  ℕ, zero, suc, ◌+◌, ◌*◌, ◌≤◌, ◌<◌, ◌≡◌, ◌≢◌, ◌⊎◌, inl, inr, refl, ap, ◌∙◌, true, List, [], ◌∷◌,
  ◌++◌, ltb, ◌==◌, length, length-append, arith, Every, Bool-cases,
}
use tinyllama_c.Http.{
  escape_byte, escape_from, json_escape_str, unescape_byte, unescape_from, json_unescape,
}

length-escape_byte : (c : ℕ) → (1 ≤ length (escape_byte c)) × (length (escape_byte c) ≤ 6)
unfolding escape_byte
length-escape_byte c = ground arith

escape_from-room :
    (out_len w : ℕ) (text : List ℕ)
    → w < out_len
    → w + length (escape_from out_len w text) < out_len
unfolding escape_from
escape_from-room out_len w [] h = omega arith
escape_from-room out_len w (c ∷ cs) h = elim (dec_lt (w + 6) out_len) [
  | no full ↦ ground arith
  | yes fits ↦
      let w' = w + length (escape_byte c) in
      let rest = escape_from out_len w' cs in
      ground (
        arith,
        escape_from-room out_len w' cs (omega (arith, length-escape_byte c)),
        length-append (escape_byte c) rest,
      )
]

-- The escaped text and its NUL fit a buffer of any size but 0.
pub length-json_escape_str :
    (out_len : ℕ) (text : List ℕ) → 0 < out_len → length (json_escape_str out_len text) < out_len
unfolding json_escape_str
length-json_escape_str out_len text h = omega (arith, escape_from-room out_len 0 text h)

unescape_from-nil : (f : ℕ) → unescape_from f [] ≡ []
unfolding unescape_from
unescape_from-nil zero = refl
unescape_from-nil (suc f) = refl

unescape_from-plain :
    (f c : ℕ) (cs : List ℕ) → c ≢ b'\\' → unescape_from (suc f) (c ∷ cs) ≡ c ∷ unescape_from f cs
unfolding unescape_from
unescape_from-plain f c [] h = ground (arith, unescape_from-nil f)
unescape_from-plain f c (d ∷ cs) h = ground arith

unescape_from-pair :
    (f d : ℕ) (cs : List ℕ)
    → d ≢ b'u'
    → unescape_from (suc f) (b'\\' ∷ d ∷ cs) ≡ unescape_byte d ∷ unescape_from f cs
unfolding unescape_from
unescape_from-pair f d cs h = ground arith

-- The bytes that an escape brings back: all but the control characters, of which it brings back the
-- line feed, the carriage return and the tab.
abbrev pub IsPlain : ℕ → Type 0
IsPlain c = (0x20 ≤ c) ⊎ (c ≡ 10) ⊎ (c ≡ 13) ⊎ (c ≡ 9)

-- Of two bytes with a backslash, or itself.
escape_byte-plain :
    (c : ℕ)
    → IsPlain c
    → ((d : ℕ) × (escape_byte c ≡ b'\\' ∷ d ∷ []) × (unescape_byte d ≡ c) × (d ≢ b'u'))
      ⊎ ((escape_byte c ≡ c ∷ []) × (c ≢ b'\\'))
unfolding escape_byte unescape_byte
escape_byte-plain c h = elim (Bool-cases (c == b'"')) [
  | inl e ↦ inl (b'"', ground arith, ground arith, omega arith)
  | inr q ↦ elim (Bool-cases (c == b'\\')) [
    | inl e ↦ inl (b'\\', ground arith, ground arith, omega arith)
    | inr b ↦ elim (Bool-cases (c == 10)) [
      | inl e ↦ inl (b'n', ground arith, ground arith, omega arith)
      | inr n ↦ elim (Bool-cases (c == 13)) [
        | inl e ↦ inl (b'r', ground arith, ground arith, omega arith)
        | inr r ↦ elim (Bool-cases (c == 9)) [
          | inl e ↦ inl (b't', ground arith, ground arith, omega arith)
          | inr t ↦ inr (ground arith, ground arith)
        ]
      ]
    ]
  ]
]

unescape-escape_from :
    (out_len w : ℕ) (text : List ℕ) (f : ℕ)
    → Every IsPlain text
    → w + 6 * length text < out_len
    → length (escape_from out_len w text) ≤ f
    → unescape_from f (escape_from out_len w text) ≡ text
unfolding escape_from
unescape-escape_from out_len w [] f plain room enough = unescape_from-nil f
unescape-escape_from out_len w (c ∷ cs) f (own, plain) room enough =
    let e = escape_byte c in
    let rest = escape_from out_len (w + length e) cs in
    let fits : ltb (w + 6) out_len ≡ true = ground arith in
    let more : length (e ++ rest) ≤ f = rw fits at enough in
    rw fits (
      step f e rest (escape_byte-plain c own) more (λ g left.
        unescape-escape_from out_len (w + length e) cs g plain (omega (arith, length-escape_byte c))
          left))
  where
    step :
        (f : ℕ) (e rest : List ℕ)
        → ((d : ℕ) × (e ≡ b'\\' ∷ d ∷ []) × (unescape_byte d ≡ c) × (d ≢ b'u'))
          ⊎ ((e ≡ c ∷ []) × (c ≢ b'\\'))
        → length (e ++ rest) ≤ f
        → ((g : ℕ) → length rest ≤ g → unescape_from g rest ≡ cs)
        → unescape_from f (e ++ rest) ≡ c ∷ cs
    step zero e rest (inl (d, is, back, plain)) more ih = absurd (omega (arith, rw is at more))
    step zero e rest (inr (is, plain)) more ih = absurd (omega (arith, rw is at more))
    step (suc f) e rest (inl (d, is, back, plain)) more ih =
        ap (λ x. unescape_from (suc f) (x ++ rest)) is ∙ unescape_from-pair f d rest plain ∙ λ i.
        back i ∷ ih f (omega (arith, rw is at more)) i
    step (suc f) e rest (inr (is, plain)) more ih =
        ap (λ x. unescape_from (suc f) (x ++ rest)) is
        ∙ unescape_from-plain f c rest plain
        ∙ ap (λ x. c ∷ x) (ih f (omega (arith, rw is at more)))

-- A text of plain bytes comes back from its escaped form, when the buffer has six bytes and one more
-- for each of them.
pub json_unescape-escape :
    (out_len : ℕ) (text : List ℕ)
    → Every IsPlain text
    → 6 * length text < out_len
    → json_unescape (json_escape_str out_len text) ≡ text
unfolding json_escape_str json_unescape
json_unescape-escape out_len text plain room =
    unescape-escape_from out_len 0 text (length (escape_from out_len 0 text)) plain (omega arith)
      (omega arith)
