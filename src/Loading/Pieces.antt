-- ===== src/Loading/Pieces.antt =====
-- The pieces that stand for single bytes, `src/core.c`.
use mathlib.Core.Option
use tinyllama_c.Prelude.{
  ℕ, zero, suc, ltb, ◌⊎◌, ◌≢◌, ◌+◌, ◌*◌, ◌≤◌, ◌<◌, ◌≡◌, refl, inl, inr, Bool, true, false, not,
  Option, none, some, ◌==◌, if◌then◌else◌, length, get_or, arith, Bool-cases,
}
use tinyllama_c.Vocab.Key.{Key}
use tinyllama_c.Loading.Bytes.{
  is_self, count_mapped, code_point, spm_hex_digit, spm_byte_token_value,
}

count_mapped_step : (n : ℕ) → count_mapped n ≤ count_mapped (suc n)
unfolding count_mapped
count_mapped_step n = ground arith

count_mapped_other : (n : ℕ) → is_self n ≡ false → count_mapped n < count_mapped (suc n)
unfolding count_mapped
count_mapped_other n h = ground arith

Nat-order : (b c : ℕ) → (b < c) ⊎ (b ≡ c) ⊎ (c < b)
Nat-order b c = elim (Bool-cases (ltb b c)) [
  | inl before ↦ inl (ground arith)
  | inr other ↦ elim (Bool-cases (ltb c b)) [
    | inl after ↦ inr (inr (ground arith))
    | inr neither ↦ inr (inl (ground arith))
  ]
]

code_point_self : (b : ℕ) → is_self b ≡ true → code_point b ≡ b
unfolding code_point
code_point_self b h = rw h

code_point_other : (b : ℕ) → is_self b ≡ false → code_point b ≡ 256 + count_mapped b
unfolding code_point
code_point_other b h = rw h

count_mapped_below : (b c : ℕ) → is_self b ≡ false → b < c → count_mapped b < count_mapped c
count_mapped_below b zero h lt = absurd (omega arith)
count_mapped_below b (suc c) h lt = elim (Bool-cases (ltb b c)) [
  | inl before ↦
      let below : b < c = ground arith in
      omega (arith, count_mapped_below b c h below, count_mapped_step c)
  | inr last ↦ let same : c ≡ b = ground arith in rw same (count_mapped_other b h)
]

count_mapped_injective :
    (b c : ℕ) → is_self b ≡ false → is_self c ≡ false → count_mapped b ≡ count_mapped c → b ≡ c
count_mapped_injective b c nb nc e = elim (Nat-order b c) [
  | inl lt ↦ let below = count_mapped_below b c nb lt in absurd (omega arith)
  | inr (inl same) ↦ same
  | inr (inr gt) ↦ let below = count_mapped_below c b nc gt in absurd (omega arith)
]

code_point_injective : (b c : ℕ) → b < 256 → c < 256 → code_point b ≡ code_point c → b ≡ c
code_point_injective b c hb hc e = elim (Bool-cases (is_self b)) [
  | inl sb ↦
      let at_b = code_point_self b sb in
      elim (Bool-cases (is_self c)) [
        | inl sc ↦ omega (arith, e, at_b, code_point_self c sc)
        | inr nc ↦ absurd (omega (arith, e, at_b, code_point_other c nc))
      ]
  | inr nb ↦
      let at_b = code_point_other b nb in
      elim (Bool-cases (is_self c)) [
        | inl sc ↦ absurd (omega (arith, e, at_b, code_point_self c sc))
        | inr nc ↦
            let same : count_mapped b ≡ count_mapped c =
              omega (arith, e, at_b, code_point_other c nc) in
            count_mapped_injective b c nb nc same
      ]
]

-- Two different bytes have different code points.
pub code_point-distinct : (b c : ℕ) → b < 256 → c < 256 → b ≢ c → code_point b ≢ code_point c
code_point-distinct b c hb hc ne same = ne (code_point_injective b c hb hc same)

spm_hex_digit_bound : (c d : ℕ) → spm_hex_digit c ≡ some d → d < 16
unfolding spm_hex_digit
spm_hex_digit_bound c d h = ground arith

digits_bound :
    (hi lo : Option ℕ) (b : ℕ)
    → ((d : ℕ) → hi ≡ some d → d < 16)
    → ((d : ℕ) → lo ≡ some d → d < 16)
    → Option.bind hi (λ h. Option.map (λ l. h * 16 + l) lo) ≡ some b
    → b < 256
unfolding Option.bind
digits_bound none lo b hb lb e = absurd (cc)
digits_bound (some h) none b hb lb e = absurd (cc)
digits_bound (some h) (some l) b hb lb e =
    omega (arith, hb h refl, lb l refl, Option.some-injective _ _ e)

checked :
    (p q : Bool) (o : Option ℕ) (b : ℕ)
    → (if p then none else if q then o else none) ≡ some b
    → o ≡ some b
checked true q o b h = absurd (cc)
checked false true o b h = h
checked false false o b h = absurd (cc)

-- The value of a byte piece indexes the table of 256 bytes.
pub spm_byte_token_value-bound : (k : Key) (b : ℕ) → spm_byte_token_value k ≡ some b → b < 256
unfolding spm_byte_token_value
spm_byte_token_value-bound k b h =
    digits_bound (spm_hex_digit (get_or k 3 0)) (spm_hex_digit (get_or k 4 0)) b
      (spm_hex_digit_bound (get_or k 3 0)) (spm_hex_digit_bound (get_or k 4 0))
      (checked (not (length k == 6)) _ _ b h)
