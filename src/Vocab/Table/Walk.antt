-- ===== src/Vocab/Table/Walk.antt =====
-- The probe loop: it ends while an entry is unused, and how a write to one entry changes it.
use native.Mathlib.Nat.{mod_self}
use tinyllama_c.Prelude.{
  ℕ, zero, suc, ◌+◌, ◌-◌, ◌%◌, ◌^◌, ◌<◌, ◌≡◌, ◌≢◌, ◌⊎◌, inl, inr, refl, List, Option, none, some,
  arith, ◌==◌, ==_iff, if◌then◌else◌, length, get_or, set, get_or-set, Bool-cases, Option-cases,
  bit_and-mask, ◌∙◌, sym,
}
use tinyllama_c.Vocab.Key.{Key, key_eq, key_eq_iff}
use tinyllama_c.Vocab.Table.{Entry, found, unused, next_index, probe}

wrap-mod : (n i : ℕ) → i < n → (i + 1) % n ≡ (if i + 1 == n then 0 else i + 1)
wrap-mod n i h = elim (Bool-cases (i + 1 == n)) [
  | inl e ↦ rw e (let e' : i + 1 ≡ n = (==_iff (i + 1) n).0 e in rw e' (mod_self n))
  | inr e ↦ rw e (grind arith)
]

-- Under a power of two the mask is a wrap.
pub next_index_lem :
    (i cap k : ℕ) → cap ≡ 2 ^ k → i < cap → next_index i cap ≡ (if i + 1 == cap then 0 else i + 1)
unfolding next_index
next_index_lem i cap k e h =
    rw e (bit_and-mask k (i + 1) ∙ wrap-mod (2 ^ k) i (omega (arith, sym e)))

module _ (es : List (Option Entry)) (cap : ℕ) (q : Key) where
  -- A probe that ends at an entry has found its key there.
  pub probe-found :
      (f j i : ℕ) → probe f es cap j q ≡ some (found i) → (v : ℕ) × (get_or es i none ≡ some (q, v))
  unfolding probe
  probe-found zero j i h = cc
  probe-found (suc f) j i h = elim (Option-cases (get_or es j none)) [
    | inl e ↦ absurd (ground arith)
    | inr ((k, v), e) ↦ elim (Bool-cases (key_eq k q)) [
      | inl same ↦ (v, ground (arith, key_eq_iff k q))
      | inr other ↦ probe-found f (next_index j cap) i (ground arith)
    ]
  ]

  -- A probe that ends at an unused entry stays in the table.
  pub probe-unused :
      (k : ℕ)
      → cap ≡ 2 ^ k
      → (f j i : ℕ) → j < cap
      → probe f es cap j q ≡ some (unused i)
      → (get_or es i none ≡ none) × (i < cap)
  unfolding probe
  probe-unused k pow zero j i jlt h = cc
  probe-unused k pow (suc f) j i jlt h =
      ground (arith, next_index_lem j cap k pow jlt, probe-unused k pow f (next_index j cap) i)

  -- With an unused entry `e`, `d` steps ahead, the probe stops within `d + 1` rounds.
  pub probe-stops :
      (k e : ℕ)
      → cap ≡ 2 ^ k
      → get_or es e none ≡ none
      → e < cap
      → (f j d : ℕ) → j < cap
      → (j + d ≡ e) ⊎ (j + d ≡ e + cap)
      → d < f
      → probe f es cap j q ≢ none
  unfolding probe
  probe-stops k e pow free lt zero j d jlt dist h = absurd (omega arith)
  probe-stops k e pow free lt (suc f) j d jlt dist h = ground (
    arith,
    next_index_lem j cap k pow jlt,
    probe-stops k e pow free lt f (next_index j cap) (d - 1),
  )

module _ (es : List (Option Entry)) (cap : ℕ) (e : ℕ) where
  -- Overwriting a value keeps every probe.
  pub probe-set_value :
      (k : Key) (v w : ℕ)
      → get_or es e none ≡ some (k, v)
      → e < length es
      → (f j : ℕ) (q : Key) → probe f (set es e (some (k, w))) cap j q ≡ probe f es cap j q
  unfolding probe
  probe-set_value k v w h lt zero j q = refl
  probe-set_value k v w h lt (suc f) j q = ground (
    arith,
    get_or-set es e j (some (k, w)) none lt,
    probe-set_value k v w h lt f (next_index j cap) q,
  )

  module _ (k : Key) (w : ℕ) (free : get_or es e none ≡ none) (lt : e < length es) where
    -- Filling an unused entry keeps each probe that ends at an entry.
    pub probe-fill_found :
        (f j i : ℕ) (q : Key)
        → probe f es cap j q ≡ some (found i)
        → probe f (set es e (some (k, w))) cap j q ≡ some (found i)
    unfolding probe
    probe-fill_found zero j i q h = cc
    probe-fill_found (suc f) j i q h =
        ground (
          arith,
          get_or-set es e j (some (k, w)) none lt,
          probe-fill_found f (next_index j cap) i q,
        )

    -- The new entry is found where the probe of its key ended.
    pub probe-fill_self :
        (f j : ℕ)
        → probe f es cap j k ≡ some (unused e)
        → probe f (set es e (some (k, w))) cap j k ≡ some (found e)
    unfolding probe
    probe-fill_self zero j h = cc
    probe-fill_self (suc f) j h = ground (
      arith,
      get_or-set es e j (some (k, w)) none lt,
      key_eq_iff k k,
      probe-fill_self f (next_index j cap),
    )
