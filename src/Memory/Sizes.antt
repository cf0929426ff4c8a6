-- ===== src/Memory/Sizes.antt =====
-- `scalloc` of `src/mm.c`.
use native.Mathlib.Nat.{mul-le-mul_right, div-mul-le_self, lt-div-mul-add}
use tinyllama_c.Prelude.{
  List, ◌⊎◌, covers, some, ℕ, suc, ◌+◌, ◌-◌, ◌*◌, ◌/◌, ◌^◌, ◌≤◌, ◌<◌, ◌≡◌, refl, inl, inr, true,
  false, none, ◌==◌, arith, Bool-cases,
}
use tinyllama_c.Alloc.{AllocSet}
use tinyllama_c.Alloc.Regions.{Given, total}
use tinyllama_c.Alloc.Known.{Invariant}
use tinyllama_c.Alloc.Apart.{asked, Served, alloc_set_alloc-Served}
use tinyllama_c.Memory.{or_one, mm_get_ctx, too_many, scalloc_total, scalloc}

-- The quotient against which the check compares.
limit-le : (n s : ℕ) → n ≤ (2 ^ 64 - 1) / s → n * s < 2 ^ 64
limit-le n s h = omega (arith, mul-le-mul_right s h, div-mul-le_self (2 ^ 64 - 1) s)

limit-lt : (n s : ℕ) → 0 < s → (2 ^ 64 - 1) / s < n → 2 ^ 64 ≤ n * s
limit-lt n s some_size h =
    let q = (2 ^ 64 - 1) / s in
    let e : suc q * s ≡ q * s + s = grind arith in
    let up : suc q * s ≤ n * s = mul-le-mul_right s (omega (arith, h)) in
    omega (arith, e, up, lt-div-mul-add {a = 2 ^ 64 - 1} {b = s} some_size)

zero_times : (s : ℕ) → 0 * s ≡ 0
zero_times s = grind arith

times_zero : (n : ℕ) → n * 0 ≡ 0
times_zero n = grind arith

too_many_above : (n s : ℕ) → too_many n s ≡ true → 2 ^ 64 ≤ n * s
unfolding too_many
too_many_above n s h = limit-lt n s (ground (arith, h)) (ground (arith, h))

too_many_below : (n s : ℕ) → too_many n s ≡ false → n * s < 2 ^ 64
unfolding too_many
too_many_below n s h = elim (Bool-cases (n == 0)) [
  | inl none_asked ↦
      let e : n ≡ 0 = ground (arith, none_asked) in rw e (omega (arith, zero_times s))
  | inr some_asked ↦ elim (Bool-cases (s == 0)) [
    | inl no_size ↦ let e : s ≡ 0 = ground (arith, no_size) in rw e (omega (arith, times_zero n))
    | inr sized ↦ limit-le n s (ground (arith, h, some_asked, sized))
  ]
]

total-le : (n s : ℕ) → n * s < 2 ^ 64 → n * s ≤ scalloc_total n s
total-le n s h = elim (Bool-cases (n == 0)) [
  | inl none_asked ↦
      let e : n ≡ 0 = ground (arith, none_asked) in rw e (omega (arith, zero_times s))
  | inr some_asked ↦ elim (Bool-cases (s == 0)) [
    | inl no_size ↦ let e : s ≡ 0 = ground (arith, no_size) in rw e (omega (arith, times_zero n))
    | inr sized ↦ rw (some_asked, sized) (omega (arith, h))
  ]
]

total-lt : (n s : ℕ) → n * s < 2 ^ 62 → n < 2 ^ 62 → s < 2 ^ 62 → scalloc_total n s < 2 ^ 63
total-lt n s h hn hs = elim (Bool-cases (n == 0)) [
  | inl none_asked ↦
      let e : 1 * or_one s ≡ or_one s = grind arith in rw (none_asked, e) (ground (arith, hs))
  | inr some_asked ↦ elim (Bool-cases (s == 0)) [
    | inl no_size ↦
        let e : n * 1 ≡ n = grind arith in rw (some_asked, no_size, e) (omega (arith, hn))
    | inr sized ↦ rw (some_asked, sized) (omega (arith, h))
  ]
]

-- Where the context has its invariant, `n` and `s` are below 2^62, so is their product unless a u64
-- does not hold it, and what `malloc` gives shares no byte with what the context has: an array of `n`
-- entries of `s` bytes whose size a u64 does not hold ends the program, and for any other `scalloc`
-- returns a chunk with room for it, and with it the context keeps its invariant.
pub scalloc-Served :
    (home addr : ℕ) (ctx : AllocSet) (es : List Given) (n s : ℕ)
    → Invariant ctx es
    → (n * s < 2 ^ 62) ⊎ (2 ^ 64 ≤ n * s)
    → n < 2 ^ 62
    → s < 2 ^ 62
    → addr + asked ctx (scalloc_total n s) < 2 ^ 64
    → ((x : ℕ) → covers addr (asked ctx (scalloc_total n s)) x + total ctx es x ≤ 1)
    → ((2 ^ 64 ≤ n * s) × (scalloc home addr (some ctx) n s ≡ none))
      ⊎ ((n * s < 2 ^ 64) × Served es (n * s) (scalloc home addr (some ctx) n s))
unfolding scalloc mm_get_ctx
scalloc-Served home addr ctx es n s inv range hn hs low fresh = elim (Bool-cases (too_many n s)) [
  | inl refused ↦ inl (too_many_above n s refused, rw refused refl)
  | inr accepted ↦
      let small = too_many_below n s accepted in
      let half : n * s < 2 ^ 62 = elim range [
        | inl h ↦ h
        | inr big ↦ absurd (omega (arith, big, small))
      ] in
      let served =
        alloc_set_alloc-Served addr ctx (scalloc_total n s) es inv (total-lt n s half hn hs) low
          fresh in
      inr (
        small,
        rw accepted (record {
          result = served.result;
          entry = served.entry;
          returns = served.returns;
          pointer = served.pointer;
          room = omega (arith, served.room, total-le n s small);
          keeps = served.keeps;
        }),
      )
]
