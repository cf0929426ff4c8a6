-- ===== src/Loading/Names.antt =====
-- The names `<0xHH>` of bytes, which `src/core.c` reads.
use mathlib.Core.Option
use tinyllama_c.Prelude.{
  ℕ, ◌+◌, ◌*◌, ◌<◌, ◌≤◌, ◌≡◌, refl, ap, ◌∙◌, inl, inr, ◌&&◌, [], ◌∷◌, ◌++◌, some, leb, ◌==◌, length,
  get_or, codes, arith, Bool-cases, bind-inv, map-inv,
}
use tinyllama_c.Vocab.Key.{Key}
use tinyllama_c.Loading.Bytes.{spm_hex_digit, spm_byte_token_value}

-- The value of a hexadecimal digit, by the character before the first digit of its kind.
pub data IsDigit : ℕ → ℕ → Type 0 where
  decimal : (d : ℕ) → d < 10 → IsDigit (48 + d) d
  lower : (d : ℕ) → 10 ≤ d → d < 16 → IsDigit (87 + d) d
  upper : (d : ℕ) → 10 ≤ d → d < 16 → IsDigit (55 + d) d

-- The piece `<0xHH>` of a byte.
pub record Names (k : Key) (b : ℕ) : Type 0 where
  pub high : ℕ
  pub low : ℕ
  pub high_digit : ℕ
  pub low_digit : ℕ
  pub spelled : k ≡ codes "<0x" ++ high ∷ low ∷ codes ">"
  pub high_value : IsDigit high high_digit
  pub low_value : IsDigit low low_digit
  pub value : b ≡ 16 * high_digit + low_digit

spm_hex_digit-IsDigit : (c d : ℕ) → spm_hex_digit c ≡ some d → IsDigit c d
unfolding spm_hex_digit
spm_hex_digit-IsDigit c d h = elim (Bool-cases (leb 48 c && leb c 57)) [
  | inl digit ↦
      let v : c ≡ 48 + d = ground (arith, digit, h) in rw v (decimal d (ground (arith, digit, h)))
  | inr rest ↦ elim (Bool-cases (leb 97 c && leb c 102)) [
    | inl small ↦
        let v : c ≡ 87 + d = ground (arith, rest, small, h) in
        rw v (lower d (ground (arith, rest, small, h)) (ground (arith, rest, small, h)))
    | inr last ↦
        let v : c ≡ 55 + d = ground (arith, rest, last, h) in
        rw v (upper d (ground (arith, rest, last, h)) (ground (arith, rest, last, h)))
  ]
]

six :
    (k : Key)
    → length k ≡ 6
    → k
      ≡ get_or k 0 0 ∷ get_or k 1 0 ∷ get_or k 2 0 ∷ get_or k 3 0 ∷ get_or k 4 0 ∷ get_or k 5 0 ∷ []
six (a ∷ b ∷ c ∷ d ∷ e ∷ f ∷ []) h = refl
six [] h = absurd (omega arith)
six (a ∷ []) h = absurd (omega arith)
six (a ∷ b ∷ []) h = absurd (omega arith)
six (a ∷ b ∷ c ∷ []) h = absurd (omega arith)
six (a ∷ b ∷ c ∷ d ∷ []) h = absurd (omega arith)
six (a ∷ b ∷ c ∷ d ∷ e ∷ []) h = absurd (omega arith)
six (a ∷ b ∷ c ∷ d ∷ e ∷ f ∷ g ∷ k) h = absurd (omega arith)

framed_six :
    (k : Key)
    → get_or k 0 0 ≡ 60
    → get_or k 1 0 ≡ 48
    → get_or k 2 0 ≡ 120
    → get_or k 5 0 ≡ 62
    → (get_or k 0 0 ∷ get_or k 1 0 ∷ get_or k 2 0 ∷ get_or k 3 0 ∷ get_or k 4 0 ∷ get_or k 5 0 ∷ [])
      ≡ codes "<0x" ++ get_or k 3 0 ∷ get_or k 4 0 ∷ codes ">"
framed_six k e0 e1 e2 e5 = rw (e0, e1, e2, e5) refl

-- A piece that has a value is the name of a byte, and that byte is the value.
pub spm_byte_token_value-Names : (k : Key) (b : ℕ) → spm_byte_token_value k ≡ some b → Names k b
unfolding spm_byte_token_value
spm_byte_token_value-Names k b h = elim (Bool-cases (length k == 6)) [
  | inr other ↦ absurd (ground (arith, other, h))
  | inl long ↦
      elim (Bool-cases (
        get_or k 0 0 == b'<'
        && get_or k 1 0 == b'0'
        && get_or k 2 0 == b'x'
        && get_or k 5 0 == b'>')) [
          | inr other ↦ absurd (ground (arith, long, other, h))
          | inl framed ↦
              let (hi, e_hi, h') =
                bind-inv (spm_hex_digit (get_or k 3 0)) _ b (rw (long, framed) at h) in
              let (lo, e_lo, v) = map-inv (spm_hex_digit (get_or k 4 0)) (λ l. hi * 16 + l) b h' in
              record {
                high = get_or k 3 0;
                low = get_or k 4 0;
                high_digit = hi;
                low_digit = lo;
                spelled =
                    six k (ground (arith, long))
                    ∙ framed_six k (ground (arith, framed)) (ground (arith, framed))
                        (ground (arith, framed)) (ground (arith, framed));
                high_value = spm_hex_digit-IsDigit (get_or k 3 0) hi e_hi;
                low_value = spm_hex_digit-IsDigit (get_or k 4 0) lo e_lo;
                value = omega (arith, v);
              }
        ]
]

IsDigit-spm_hex_digit : (c d : ℕ) → IsDigit c d → spm_hex_digit c ≡ some d
unfolding spm_hex_digit
IsDigit-spm_hex_digit _ _ (decimal d h) = ground (arith, h)
IsDigit-spm_hex_digit _ _ (lower d h g) = ground (arith, h, g)
IsDigit-spm_hex_digit _ _ (upper d h g) = ground (arith, h, g)

IsDigit-lt : (c d : ℕ) → IsDigit c d → d < 16
IsDigit-lt _ _ (decimal d h) = omega arith
IsDigit-lt _ _ (lower d h g) = g
IsDigit-lt _ _ (upper d h g) = g

pub Names-lt : (k : Key) (b : ℕ) → Names k b → b < 256
Names-lt k b n = omega (
  arith,
  n.value,
  IsDigit-lt n.high n.high_digit n.high_value,
  IsDigit-lt n.low n.low_digit n.low_value,
)

-- The name of a byte has it as its value.
pub Names-spm_byte_token_value : (k : Key) (b : ℕ) → Names k b → spm_byte_token_value k ≡ some b
unfolding spm_byte_token_value Option.bind
Names-spm_byte_token_value k b n = rw n.spelled (
    rw
      (
        IsDigit-spm_hex_digit n.high n.high_digit n.high_value,
        IsDigit-spm_hex_digit n.low n.low_digit n.low_value,
      )
      (ap some (omega (arith, n.value))))
