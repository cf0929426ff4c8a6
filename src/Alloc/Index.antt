-- ===== src/Alloc/Index.antt =====
-- The class of a size, in `src/asctx.c`.
use native.Mathlib.Nat.{pow-suc, one-le-pow}
use tinyllama_c.Prelude.{
  ℕ, zero, suc, ◌-◌, ◌^◌, ◌≤◌, ◌<◌, ◌≡◌, refl, Bool, true, false, ◌&&◌, ◌||◌, Option, none, some,
  ltb, leb, ◌==◌, inl, inr, Bool-cases, arith,
}
use tinyllama_c.Alloc.{
  alloc_set_free_index, leftmost_32_pos, leftmost_from, class_size, alloc_chunk_limit,
}

-- The class is one of the eleven, holds the size, and the class below does not.
abbrev is_class : ℕ → ℕ → Bool
is_class size f = leb f 10 && leb size (class_size f) && (f == 0 || ltb (class_size (f - 1)) size)

has_class : ℕ → Bool
has_class size = elim (alloc_set_free_index size) [ none ↦ false | some f ↦ is_class size f ]

-- Over the sizes up to a limit, by evaluation.
all_below : ℕ → Bool
all_below zero = true
all_below (suc n) = has_class n && all_below n

all_below_sound : (n size : ℕ) → all_below n ≡ true → size < n → has_class size ≡ true
unfolding all_below
all_below_sound zero size h lt = absurd (omega arith)
all_below_sound (suc n) size h lt = ground (arith, all_below_sound n size)

every_size : all_below 8193 ≡ true
unfolding all_below has_class alloc_set_free_index leftmost_32_pos leftmost_from
every_size = refl

-- The index of a size.
pub record Class (size f : ℕ) : Type 0 where
  pub index : alloc_set_free_index size ≡ some f
  pub known : f ≤ 10
  pub holds : size ≤ class_size f
  pub least : (k : ℕ) → size ≤ class_size k → f ≤ k

pub pow_mono : (k m : ℕ) → k ≤ m → 2 ^ k ≤ 2 ^ m
pow_mono zero m h = one-le-pow m 2 (omega arith)
pow_mono (suc k) zero h = absurd (omega arith)
pow_mono (suc k) (suc m) h = omega (arith, pow-suc 2 k, pow-suc 2 m, pow_mono k m (omega arith))

least_class :
    (size f k : ℕ) → (f == 0 || ltb (class_size (f - 1)) size) ≡ true → size ≤ class_size k → f ≤ k
least_class size f k h fits = elim (Bool-cases (leb f k)) [
  | inl below ↦ ground (arith, below)
  | inr above ↦
      let low : k ≤ f - 1 = ground (arith, above) in ground (arith, pow_mono k (f - 1) low, above)
]

to_class : (size f : ℕ) → alloc_set_free_index size ≡ some f → is_class size f ≡ true → Class size f
to_class size f e h = record {
  index = e;
  known = ground (arith, h);
  holds = ground (arith, h);
  least = λ k fits. least_class size f k (ground (arith, h)) fits;
}

-- A size of at most 8192 bytes has the index of the smallest of the eleven classes that holds it.
pub alloc_set_free_index-Class : (size : ℕ) → size ≤ alloc_chunk_limit → (f : ℕ) × Class size f
unfolding has_class
alloc_set_free_index-Class size h =
    found (alloc_set_free_index size) refl (all_below_sound 8193 size every_size (omega arith))
  where
    found :
        (o : Option ℕ)
        → alloc_set_free_index size ≡ o
        → elim o [ none ↦ false | some f ↦ is_class size f ] ≡ true
        → (f : ℕ) × Class size f
    found none e h = absurd (cc)
    found (some f) e h = (f, to_class size f e h)
