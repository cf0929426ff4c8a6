-- ===== src/Graph/Plan/Step.antt =====
-- One step of the sweep of the arena planner of `src/graph.c`: whose bytes are whose.
use mathlib.Core.Option
use mathlib.Core.Path.{subst}
use tinyllama_c.Prelude.{
  ℕ, zero, suc, ◌+◌, ◌^◌, ◌≤◌, ◌<◌, ◌≡◌, ◌⊎◌, refl, ◌∙◌, ap, sym, inl, inr, Bool, true, false, ◌&&◌,
  List, [], ◌∷◌, ◌++◌, some, ltb, leb, ◌==◌, if◌then◌else◌, length, get_elem?, get_or, arith,
  Bool-cases, length-append,
}
use tinyllama_c.Graph.Plan.{Slot, Sweep, Demand, free_of, bump_of, reclaim, sweep_step}
use tinyllama_c.Graph.Plan.Cover.{
  free_cover, slot_cover, live_cover, live_cover-append, live_cover-split, EveryBackend, Reclaims,
  reclaim-Reclaims, reclaim-cover,
}
use tinyllama_c.Graph.Plan.Place.{slot_at, mine, Places, place-Places}

-- Slots of one backend share no byte, if the later one is placed while the earlier one is in use.
abbrev pub Apart : List Slot → Type 0
Apart ts =
    (j k : ℕ) (t u : Slot) (x : ℕ)
    → get_elem? ts j ≡ some t
    → get_elem? ts k ≡ some u
    → j < k
    → t.backend ≡ u.backend
    → k ≤ t.release
    → slot_cover x t + slot_cover x u ≤ 1

-- Each byte of a slot lies in the arena of its backend.
abbrev pub Inside : Sweep → Type 0
Inside s =
    (j : ℕ) (t : Slot) (x : ℕ)
    → get_elem? s.slot j ≡ some t
    → slot_cover x t ≡ 1
    → x < bump_of s t.backend

-- `left` bytes are still to be asked for.
pub record Invariant (left : ℕ) (s : Sweep) : Type 0 where
  pub free_shape : length s.free ≡ 3
  pub bump_shape : length s.bump ≡ 3
  pub backends : EveryBackend s.slot
  pub small : (b : ℕ) → bump_of s b + left < 2 ^ 64
  pub once : (b x : ℕ) → free_cover x (free_of s b) + live_cover (length s.slot) b x s.slot ≤ 1
  pub room :
      (b x : ℕ)
      → bump_of s b ≤ x
      → free_cover x (free_of s b) + live_cover (length s.slot) b x s.slot ≡ 0
  pub inside : Inside s
  pub apart : Apart s.slot

snoc-get_elem? {ℓ} :
    {A : Type ℓ} (xs : List A) (a b : A) (j : ℕ)
    → get_elem? (xs ++ a ∷ []) j ≡ some b
    → (get_elem? xs j ≡ some b) ⊎ ((j ≡ length xs) × (a ≡ b))
snoc-get_elem? [] a b zero h = inr (refl, Option.some-injective _ _ h)
snoc-get_elem? [] a b (suc j) h = absurd (cc)
snoc-get_elem? (x ∷ xs) a b zero h = inl h
snoc-get_elem? (x ∷ xs) a b (suc j) h = elim (snoc-get_elem? xs a b j h) [
  | inl old ↦ inl old
  | inr (place', same) ↦ inr (ap suc place', same)
]

get_elem?-lt {ℓ} :
    {A : Type ℓ} (xs : List A) (a : A) (j : ℕ) → get_elem? xs j ≡ some a → j < length xs
get_elem?-lt [] a j h = absurd (cc)
get_elem?-lt (x ∷ xs) a zero h = omega arith
get_elem?-lt (x ∷ xs) a (suc j) h = omega (arith, get_elem?-lt xs a j h)

snoc-EveryBackend :
    (ts : List Slot) (t : Slot) → EveryBackend ts → t.backend < 3 → EveryBackend (ts ++ t ∷ [])
snoc-EveryBackend [] t h low = (low, tt)
snoc-EveryBackend (u ∷ ts) t (l, h) low = (l, snoc-EveryBackend ts t h low)

-- A slot in use is counted.
slot-le-live_cover :
    (i b x : ℕ) (ts : List Slot) (j : ℕ) (t : Slot)
    → get_elem? ts j ≡ some t
    → t.backend ≡ b
    → i ≤ t.release + 1
    → slot_cover x t ≤ live_cover i b x ts
slot-le-live_cover i b x [] j t h same live = absurd (cc)
slot-le-live_cover i b x (u ∷ ts) zero t h same live =
    let e : u ≡ t = Option.some-injective _ _ h in
    let here : u.backend ≡ b = ap (λ w. w.backend) e ∙ same in
    let late = ap (λ w. w.release) e in
    subst (λ w. slot_cover x w ≤ live_cover i b x (u ∷ ts)) e
      (counted (u.backend == b) (leb i (u.release + 1)) (slot_cover x u) (live_cover i b x ts)
        (ground (arith, here)) (ground (arith, late)))
  where
    counted : (c d : Bool) (k n : ℕ) → c ≡ true → d ≡ true → k ≤ (if c && d then k else 0) + n
    counted true true k n p q = omega arith
    counted true false k n p q = absurd (cc)
    counted false d k n p q = absurd (cc)
slot-le-live_cover i b x (u ∷ ts) (suc j) t h same live =
    omega (arith, slot-le-live_cover i b x ts j t h same live)

counted_now :
    (c e : Bool) (n k : ℕ)
    → e ≡ true
    → n + ((if c && e then k else 0) + 0) ≡ n + (if c then k else 0)
counted_now true true n k h = omega arith
counted_now false true n k h = omega arith
counted_now true false n k h = absurd (cc)
counted_now false false n k h = absurd (cc)

-- The demand of node `i`, with room for `left` more bytes after it.
module _ (left : ℕ) (d : Demand) (s : Sweep) (low : d.backend < 3)
    (late : length s.slot ≤ d.release) (inv : Invariant (d.need + left) s) where
  abbrev i : ℕ
  i = length s.slot

  abbrev m : Sweep
  m = reclaim i s.slot s

  m-rest : Reclaims s m
  m-rest = reclaim-Reclaims i s.slot s

  m-cover :
      (b x : ℕ)
      → free_cover x (free_of m b) + live_cover (suc i) b x s.slot
        ≡ free_cover x (free_of s b) + live_cover i b x s.slot
  m-cover b x = omega (
    arith,
    reclaim-cover i s.slot s b x inv.backends inv.free_shape,
    live_cover-split i b x s.slot,
  )

  m-bump : (b : ℕ) → bump_of m b ≡ bump_of s b
  m-bump b = ap (λ bump. get_or bump b 0) m-rest.bump

  step-Places : Places d m (sweep_step d s)
  unfolding sweep_step
  step-Places =
      place-Places d m (m-rest.free ∙ inv.free_shape) (ap length m-rest.bump ∙ inv.bump_shape) low
        (omega (arith, m-bump d.backend, inv.small d.backend))

  abbrev t : Slot
  t = slot_at d step-Places.off

  step-slot : (sweep_step d s).slot ≡ s.slot ++ t ∷ []
  step-slot = step-Places.slot ∙ ap (λ ts. ts ++ t ∷ []) m-rest.slot

  pub step-length : length (sweep_step d s).slot ≡ suc i
  step-length = ap length step-slot ∙ length-append s.slot (t ∷ []) ∙ omega arith

  live :
      (b x : ℕ)
      → live_cover (suc i) b x (s.slot ++ t ∷ []) ≡ live_cover (suc i) b x s.slot + mine t b x
  live b x =
      live_cover-append (suc i) b x s.slot (t ∷ [])
      ∙ counted_now (d.backend == b) (leb (suc i) (d.release + 1)) _ _ (ground arith)

  step-total :
      (b x : ℕ)
      → live_cover (length (sweep_step d s).slot) b x (sweep_step d s).slot
        ≡ live_cover (suc i) b x s.slot + mine t b x
  step-total b x =
      ap (λ n. live_cover n b x (sweep_step d s).slot) step-length
      ∙ ap (live_cover (suc i) b x) step-slot
      ∙ live b x

  step-once :
      (b x : ℕ)
      → free_cover x (free_of (sweep_step d s) b) + (live_cover (suc i) b x s.slot + mine t b x) ≤ 1
  step-once b x = elim (Bool-cases (ltb x (bump_of m b))) [
    | inl old ↦
        omega (arith, step-Places.below b x (ground (arith, old)), m-cover b x, inv.once b x)
    | inr new ↦
        let far : bump_of m b ≤ x = ground (arith, new) in
        let empty = inv.room b x (omega (arith, far, m-bump b)) in
        ground (arith, step-Places.above b x far, m-cover b x, empty)
  ]

  step-room :
      (b x : ℕ)
      → bump_of (sweep_step d s) b ≤ x
      → free_cover x (free_of (sweep_step d s) b) + (live_cover (suc i) b x s.slot + mine t b x) ≡ 0
  step-room b x far =
      let far' : bump_of m b ≤ x = omega (arith, far, step-Places.grows b) in
      let empty = inv.room b x (omega (arith, far', m-bump b)) in
      ground (arith, step-Places.above b x far', m-cover b x, empty, far)

  own : (x : ℕ) → mine t d.backend x ≡ slot_cover x t
  own x = let e : (d.backend == d.backend) ≡ true = ground arith in rw e refl

  step-Inside : Inside (sweep_step d s)
  step-Inside j u x at' covered = elim (snoc-get_elem? s.slot t u j (rw step-slot at at')) [
    | inl old ↦
        omega (arith, inv.inside j u x old covered, m-bump u.backend, step-Places.grows u.backend)
    | inr (last, same) ↦
        subst (λ w. x < bump_of (sweep_step d s) w.backend) same
          (new-inside x (ap (slot_cover x) same ∙ covered))
  ]
    where
      new-inside : (x : ℕ) → slot_cover x t ≡ 1 → x < bump_of (sweep_step d s) d.backend
      new-inside x covered = elim (Bool-cases (ltb x (bump_of (sweep_step d s) d.backend))) [
        | inl within ↦ ground (arith, within)
        | inr beyond ↦
            let far : bump_of (sweep_step d s) d.backend ≤ x = ground (arith, beyond) in
            absurd (omega (arith, step-room d.backend x far, own x, covered))
      ]

  step-Apart : Apart (sweep_step d s).slot
  step-Apart j k u v x at_j at_k before same late' =
      elim (snoc-get_elem? s.slot t u j (rw step-slot at at_j)) [
        | inl at_j' ↦ elim (snoc-get_elem? s.slot t v k (rw step-slot at at_k)) [
          | inl at_k' ↦ inv.apart j k u v x at_j' at_k' before same late'
          | inr (last, new) ↦
              let here : u.backend ≡ d.backend = same ∙ sym (ap (λ w. w.backend) new) in
              let counted =
                slot-le-live_cover (suc i) d.backend x s.slot j u at_j' here (omega arith) in
              omega (arith, counted, own x, step-once d.backend x, ap (slot_cover x) new)
        ]
        | inr (last, _) ↦
            let short : k < suc i =
              rw step-length at (get_elem?-lt (sweep_step d s).slot v k at_k) in
            absurd (omega arith)
      ]

  pub step-Invariant : Invariant left (sweep_step d s)
  step-Invariant = record {
    free_shape = step-Places.free_shape;
    bump_shape = step-Places.bump_shape;
    backends = subst EveryBackend (sym step-slot) (snoc-EveryBackend s.slot t inv.backends low);
    small = λ b. omega (arith, inv.small b, m-bump b, step-Places.bounded b);
    once = λ b x. omega (arith, step-once b x, step-total b x);
    room = λ b x far. omega (arith, step-room b x far, step-total b x);
    inside = step-Inside;
    apart = step-Apart;
  }
