-- ===== src/Prelude/Bits.antt =====
-- `&` with a mask of low ones is a remainder, at every width.
use Prim.Native.Nat.{
  ℕ, zero, suc, ◌+◌, ◌-◌, ◌*◌, ◌/◌, ◌%◌, ◌^◌, ◌≤◌, ◌<◌, min, max, bit_and, bit_or, digits,
  bit_and-bitwise, bit_or-bitwise,
}
use mathlib.Core.Path.{◌≡◌, refl, ◌∙◌}
use native.Mathlib.Nat.{pow-suc, one-le-pow}
use native.Mathlib.Omega.{arith}

-- What the native `bit_and` stands for: digits of the first operand, `n` of them at most.
abbrev meet : ℕ → ℕ → ℕ → ℕ
meet n a b = digits (λ _. zero) min n a b

meet_fuel : (n a b : ℕ) → a ≤ n → (m : ℕ) → a ≤ m → meet n a b ≡ meet m a b
meet_fuel zero zero b p zero q = refl
meet_fuel zero zero b p (suc m) q = refl
meet_fuel zero (suc a) b p m q = absurd (omega arith)
meet_fuel (suc n) zero b p zero q = refl
meet_fuel (suc n) zero b p (suc m) q = refl
meet_fuel (suc n) (suc a) b p zero q = absurd (omega arith)
meet_fuel (suc n) (suc a) b p (suc m) q =
    omega (arith, meet_fuel n (suc a / 2) (b / 2) (omega arith) m (omega arith))

pub bit_and-halves : (a b : ℕ) → bit_and a b ≡ bit_and (a / 2) (b / 2) * 2 + min (a % 2) (b % 2)
bit_and-halves zero b = omega (arith, bit_and-bitwise 0 b, bit_and-bitwise 0 (b / 2))
bit_and-halves (suc a) b =
    let half = suc a / 2 in
    omega (
      arith,
      bit_and-bitwise (suc a) b,
      bit_and-bitwise half (b / 2),
      meet_fuel a half (b / 2) (omega arith) half (omega arith),
    )

below-bit_and : (k a : ℕ) → a < 2 ^ k → bit_and a 0 ≡ 0
below-bit_and zero a h = let e : a ≡ 0 = omega arith in rw e (bit_and-bitwise 0 0)
below-bit_and (suc k) a h =
    omega
      (arith, bit_and-halves a 0, pow-suc 2 k, below-bit_and k (a / 2) (omega (arith, pow-suc 2 k)))

lt-two-pow : (a : ℕ) → a < 2 ^ a
lt-two-pow zero = omega arith
lt-two-pow (suc a) = omega (arith, pow-suc 2 a, lt-two-pow a)

pub bit_and-zero : (a : ℕ) → bit_and a 0 ≡ 0
bit_and-zero a = below-bit_and a a (lt-two-pow a)

mod-split : (k a : ℕ) → a % 2 ^ suc k ≡ a / 2 % 2 ^ k * 2 + a % 2
mod-split k a = rw (pow-suc 2 k) (grind arith)

-- The low `k` bits.
pub bit_and-mask : (k a : ℕ) → bit_and a (2 ^ k - 1) ≡ a % 2 ^ k
bit_and-mask zero a = rw (bit_and-zero a) (omega arith)
bit_and-mask (suc k) a =
    let odd : (2 ^ suc k - 1) % 2 ≡ 1 = omega (arith, pow-suc 2 k, one-le-pow k 2) in
    let half : (2 ^ suc k - 1) / 2 ≡ 2 ^ k - 1 = omega (arith, pow-suc 2 k, one-le-pow k 2) in
    rw (bit_and-halves a (2 ^ suc k - 1), half, odd, bit_and-mask k (a / 2), mod-split k a)
      (omega arith)

-- The native `bit_or`: digits of the first operand, `n` of them at most, and then the second.
abbrev join : ℕ → ℕ → ℕ → ℕ
join n a b = digits (λ b. b) max n a b

join_fuel : (n a b : ℕ) → a ≤ n → (m : ℕ) → a ≤ m → join n a b ≡ join m a b
join_fuel zero zero b p zero q = refl
join_fuel zero zero b p (suc m) q = refl
join_fuel zero (suc a) b p m q = absurd (omega arith)
join_fuel (suc n) zero b p zero q = refl
join_fuel (suc n) zero b p (suc m) q = refl
join_fuel (suc n) (suc a) b p zero q = absurd (omega arith)
join_fuel (suc n) (suc a) b p (suc m) q =
    omega (arith, join_fuel n (suc a / 2) (b / 2) (omega arith) m (omega arith))

bit_or-halves : (a b : ℕ) → bit_or a b ≡ bit_or (a / 2) (b / 2) * 2 + max (a % 2) (b % 2)
bit_or-halves zero b = omega (arith, bit_or-bitwise 0 b, bit_or-bitwise 0 (b / 2))
bit_or-halves (suc a) b =
    let half = suc a / 2 in
    omega (
      arith,
      bit_or-bitwise (suc a) b,
      bit_or-bitwise half (b / 2),
      join_fuel a half (b / 2) (omega arith) half (omega arith),
    )

below-bit_or : (k a : ℕ) → a < 2 ^ k → bit_or a 0 ≡ a
below-bit_or zero a h = let e : a ≡ 0 = omega arith in rw e (bit_or-bitwise 0 0)
below-bit_or (suc k) a h =
    omega
      (arith, bit_or-halves a 0, pow-suc 2 k, below-bit_or k (a / 2) (omega (arith, pow-suc 2 k)))

-- High bits and low bits.
pub bit_or-add : (k a b : ℕ) → b < 2 ^ k → bit_or (a * 2 ^ k) b ≡ a * 2 ^ k + b
bit_or-add zero a b h =
    let e : b ≡ 0 = omega arith in
    let e' : a * 2 ^ 0 ≡ a = omega arith in
    rw (e, e') (below-bit_or a a (lt-two-pow a) ∙ omega arith)
bit_or-add (suc k) a b h =
    let e : a * 2 ^ suc k ≡ a * 2 ^ k * 2 = rw (pow-suc 2 k) (grind arith) in
    let half : a * 2 ^ k * 2 / 2 ≡ a * 2 ^ k = omega arith in
    let halves = rw half at (bit_or-halves (a * 2 ^ k * 2) b) in
    rw e (omega (arith, halves, bit_or-add k a (b / 2) (omega (arith, pow-suc 2 k))))

-- Bit 3.
pub bit_and-eight : (a : ℕ) → bit_and a 8 ≡ a / 8 % 2 * 8
bit_and-eight a = omega (
  arith,
  bit_and-halves a 8,
  bit_and-halves (a / 2) 4,
  bit_and-halves (a / 2 / 2) 2,
  bit_and-halves (a / 2 / 2 / 2) 1,
  bit_and-zero (a / 2 / 2 / 2 / 2),
)
