-- ===== src/Prelude/Regions.antt =====
-- Bytes of a region of memory.
use Prim.Native.Nat.{ℕ, ◌+◌, ◌-◌, ◌≤◌, ◌<◌}
use mathlib.Core.Path.{◌≡◌}
use mathlib.Core.Bool.{◌&&◌}
use tinyllama_c.Prelude.Tests.{ltb, leb, if◌then◌else◌}
use native.Mathlib.Omega.{arith}

-- 1 for a byte of the `size` bytes from `off` on, and 0 for any other.
abbrev pub covers : ℕ → ℕ → ℕ → ℕ
covers off size x = if leb off x && ltb x (off + size) then 1 else 0

pub covers-first : (off size : ℕ) → 0 < size → covers off size off ≡ 1
covers-first off size h = ground arith

-- A region cut in two.
pub covers-split :
    (off k size x : ℕ)
    → k ≤ size
    → covers off size x ≡ covers off k x + covers (off + k) (size - k) x
covers-split off k size x h = ground arith
