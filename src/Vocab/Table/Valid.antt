-- ===== src/Vocab/Table/Valid.antt =====
-- Well-formed tables, and what `tokenizer_table_put` does to what `tokenizer_table_get` returns.
use native.Mathlib.Decide.{dec_lt}
use tinyllama_c.Prelude.{
  ℕ, zero, suc, ◌+◌, ◌-◌, ◌^◌, ◌<◌, ◌≡◌, inl, inr, refl, ap, List, [], ◌∷◌, Option, none, some,
  arith, length, get_or, set, Option-cases, bit_and-mask,
}
use tinyllama_c.Vocab.Key.{Key}
use tinyllama_c.Vocab.Table.{TokenizerTable, Entry, Probe, found, unused, home, locate}
use tinyllama_c.Vocab.Table.Walk.{probe-found, probe-unused, probe-stops}

-- The entries in use.
unfoldable pub count_used : List (Option Entry) → ℕ
count_used [] = 0
count_used (none ∷ es) = count_used es
count_used (some e ∷ es) = suc (count_used es)

has_unused :
    (es : List (Option Entry))
    → count_used es < length es
    → (e : ℕ) × (e < length es) × (get_or es e none ≡ none)
unfolding count_used
has_unused [] h = absurd (omega arith)
has_unused (none ∷ es) h = (0, omega arith, refl)
has_unused (some x ∷ es) h =
    let (e, lt, free) = has_unused es (omega arith) in (suc e, omega arith, free)

pub count_used-set :
    (es : List (Option Entry)) (e : ℕ) (x : Entry)
    → get_or es e none ≡ none
    → e < length es
    → count_used (set es e (some x)) ≡ count_used es + 1
unfolding count_used
count_used-set [] e x h lt = absurd (omega arith)
count_used-set (none ∷ es) zero x h lt = omega arith
count_used-set (some y ∷ es) zero x h lt = cc
count_used-set (none ∷ es) (suc e) x h lt = count_used-set es e x h (omega arith)
count_used-set (some y ∷ es) (suc e) x h lt = omega (arith, count_used-set es e x h (omega arith))

pub count_used-overwrite :
    (es : List (Option Entry)) (e : ℕ) (x y : Entry)
    → get_or es e none ≡ some y
    → count_used (set es e (some x)) ≡ count_used es
unfolding count_used
count_used-overwrite [] e x y h = refl
count_used-overwrite (none ∷ es) zero x y h = cc
count_used-overwrite (some z ∷ es) zero x y h = refl
count_used-overwrite (none ∷ es) (suc e) x y h = count_used-overwrite es e x y h
count_used-overwrite (some z ∷ es) (suc e) x y h = ap suc (count_used-overwrite es e x y h)

-- The capacity is a power of two, `used` counts the entries in use and leaves one unused, and every
-- stored key is where its probe ends.
pub record IsValid (t : TokenizerTable) : Type 0 where
  pub exponent : ℕ
  pub power : t.cap ≡ 2 ^ exponent
  pub size : length t.entry ≡ t.cap
  pub counted : count_used t.entry ≡ t.used
  pub room : t.used < t.cap
  pub placed :
      (i : ℕ) (k : Key) (v : ℕ) → get_or t.entry i none ≡ some (k, v) → locate t k ≡ some (found i)

home-lt : (cap e : ℕ) (k : Key) → cap ≡ 2 ^ e → 0 < cap → home k cap < cap
unfolding home
home-lt cap e k p h = rw p (rw (bit_and-mask e _) (omega arith))

module _ {t : TokenizerTable} (valid : IsValid t) where
  home-lt-cap : (q : Key) → home q t.cap < t.cap
  home-lt-cap q = home-lt t.cap valid.exponent q valid.power (omega arith)

  -- Every probe of a well-formed table ends.
  pub locate-total : (q : Key) → (p : Probe) × (locate t q ≡ some p)
  unfolding locate
  locate-total q =
      let (e, lt, free) = has_unused t.entry (omega arith) in
      let stops =
        probe-stops t.entry t.cap q valid.exponent e valid.power free (omega arith) t.cap
          (home q t.cap) in
      elim (Option-cases (locate t q)) [
        | inr found_it ↦ found_it
        | inl never ↦ elim (dec_lt e (home q t.cap)) [
          | yes after ↦ absurd (
              stops (e + t.cap - home q t.cap) (home-lt-cap q) (inr (omega (arith, home-lt-cap q)))
                (omega (arith, home-lt-cap q)) never)
          | no upto ↦
              absurd
                (stops (e - home q t.cap) (home-lt-cap q) (inl (omega arith)) (omega arith) never)
        ]
      ]

  pub locate-found :
      (q : Key) (i : ℕ)
      → locate t q ≡ some (found i)
      → (v : ℕ) × (get_or t.entry i none ≡ some (q, v))
  unfolding locate
  locate-found q i h = probe-found t.entry t.cap q t.cap (home q t.cap) i h

  pub locate-unused :
      (q : Key) (i : ℕ)
      → locate t q ≡ some (unused i)
      → (get_or t.entry i none ≡ none) × (i < length t.entry)
  unfolding locate
  locate-unused q i h =
      let (free, lt) =
        probe-unused t.entry t.cap q valid.exponent valid.power t.cap (home q t.cap) i
          (home-lt-cap q) h in
      (free, omega arith)
