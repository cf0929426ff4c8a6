-- ===== src/Threads/Once.antt =====
-- What one call of `pthreads_parallel_for` runs, `src/pthreads.c`, when all workers are at the head of
-- their loop as it begins.
use mathlib.Core.Option
use mathlib.Core.Path.{subst}
use tinyllama_c.Prelude.{
  ℕ, zero, suc, ◌+◌, ◌-◌, ◌≤◌, ◌<◌, ◌≡◌, refl, ap, sym, inl, inr, true, ◌&&◌, List, [], ◌∷◌, some,
  ltb, leb, ◌==◌, if◌then◌else◌, length, get_elem?, set, replicate, arith, Bool-cases, Every,
}
use tinyllama_c.Threads.{
  Worker, asleep, claiming, holding, running, reporting, gone, Pool, pthreads_create, dispatch,
  is_done, finish, move, WorkerStep, wake, leave, claim, begin, give_up, complete, report,
  AllAsleep, Step, work, call, return, destroy, Reachable, first, next,
}

-- How often an index was run, and by how many workers it is held or being run.
abbrev pub runs_of : ℕ → List ℕ → ℕ
runs_of i [] = 0
runs_of i (x ∷ xs) = (if x == i then 1 else 0) + runs_of i xs

abbrev pub has : ℕ → Worker → ℕ
has i (holding j) = if j == i then 1 else 0
has i (running j) = if j == i then 1 else 0
has i _ = 0

abbrev pub held : ℕ → List Worker → ℕ
held i [] = 0
held i (w ∷ ws) = has i w + held i ws

held-set :
    (i : ℕ) (ws : List Worker) (w : ℕ) (old x : Worker)
    → get_elem? ws w ≡ some old
    → held i (set ws w x) + has i old ≡ held i ws + has i x
held-set i [] w old x h = absurd (cc)
held-set i (y ∷ ws) zero old x h =
    let e : y ≡ old = Option.some-injective _ _ h in omega (arith, ap (has i) e)
held-set i (y ∷ ws) (suc w) old x h = omega (arith, held-set i ws w old x h)

held-AllAsleep : (i : ℕ) (ws : List Worker) → AllAsleep ws → held i ws ≡ 0
held-AllAsleep i [] h = refl
held-AllAsleep i (w ∷ ws) (e, h) = omega (arith, ap (has i) e, held-AllAsleep i ws h)

-- An index that a worker has is in the range of the call, up to those past its end.
abbrev pub InRange : ℕ → ℕ → Worker → Type 0
InRange start end (holding j) = start ≤ j
InRange start end (running j) = (start ≤ j) × (j < end)
InRange start end _ = Unit {0}

abbrev pub EveryInRange : ℕ → ℕ → List Worker → Type 0
EveryInRange start end [] = Unit {0}
EveryInRange start end (w ∷ ws) = InRange start end w × EveryInRange start end ws

set-InRange :
    (start end : ℕ) (ws : List Worker) (w : ℕ) (x : Worker)
    → EveryInRange start end ws
    → InRange start end x
    → EveryInRange start end (set ws w x)
set-InRange start end [] w x h hx = tt
set-InRange start end (y ∷ ws) zero x (_, h) hx = (hx, h)
set-InRange start end (y ∷ ws) (suc w) x (hy, h) hx = (hy, set-InRange start end ws w x h hx)

get-InRange :
    (start end : ℕ) (ws : List Worker) (w : ℕ) (x : Worker)
    → EveryInRange start end ws
    → get_elem? ws w ≡ some x
    → InRange start end x
get-InRange start end [] w x h e = absurd (cc)
get-InRange start end (y ∷ ws) zero x (hy, h) e =
    let same : y ≡ x = Option.some-injective _ _ e in subst (InRange start end) same hy
get-InRange start end (y ∷ ws) (suc w) x (_, h) e = get-InRange start end ws w x h e

asleep-InRange : (start end : ℕ) (ws : List Worker) → AllAsleep ws → EveryInRange start end ws
asleep-InRange start end [] h = tt
asleep-InRange start end (w ∷ ws) (e, h) =
    (subst (InRange start end) (sym e) tt, asleep-InRange start end ws h)

replicate-AllAsleep : (n : ℕ) → AllAsleep (replicate n asleep)
replicate-AllAsleep zero = tt
replicate-AllAsleep (suc n) = (refl, replicate-AllAsleep n)

pub record Invariant (p : Pool) : Type 0 where
  pub ordered : p.start ≤ p.current
  pub workers : EveryInRange p.start p.end p.worker
  pub range : Every (λ i. (p.start ≤ i) × (i < p.end)) p.ran
  pub counted : p.done_work ≡ p.start + length p.ran
  -- each index below the end that was claimed is held, being run or was run, once
  pub once :
      (i : ℕ)
      → i < p.end
      → runs_of i p.ran + held i p.worker ≡ (if leb p.start i && ltb i p.current then 1 else 0)

-- A step that only moves a worker between states that have the same indices below the end.
moved :
    (p : Pool) (w : ℕ) (old x : Worker)
    → Invariant p
    → get_elem? p.worker w ≡ some old
    → InRange p.start p.end x
    → ((i : ℕ) → i < p.end → has i old ≡ has i x)
    → Invariant (move p w x)
moved p w old x inv at' range same = record {
  ordered = inv.ordered;
  workers = set-InRange p.start p.end p.worker w x inv.workers range;
  range = inv.range;
  counted = inv.counted;
  once = λ i low. omega (arith, inv.once i low, held-set i p.worker w old x at', same i low);
}

claimed :
    (start current i n : ℕ)
    → start ≤ current
    → n ≡ (if leb start i && ltb i current then 1 else 0)
    → n + (if current == i then 1 else 0) ≡ (if leb start i && ltb i (current + 1) then 1 else 0)
claimed start current i n h e = ground arith

WorkerStep-Invariant : (p q : Pool) (w : ℕ) → WorkerStep p w q → Invariant p → Invariant q
WorkerStep-Invariant p _ w (wake at' s b) inv = moved p w asleep claiming inv at' tt (λ i low. refl)
WorkerStep-Invariant p _ w (leave at' s) inv = moved p w asleep gone inv at' tt (λ i low. refl)
WorkerStep-Invariant p _ w (claim at' fits) inv = record {
  ordered = omega (arith, inv.ordered);
  workers = set-InRange p.start p.end p.worker w (holding p.current) inv.workers inv.ordered;
  range = inv.range;
  counted = inv.counted;
  once = λ i low.
      let held' = held-set i p.worker w claiming (holding p.current) at' in
      omega (
        arith,
        held',
        claimed p.start p.current i (runs_of i p.ran + held i p.worker) inv.ordered
            (inv.once i low),
      );
}
WorkerStep-Invariant p _ w (begin j at' low) inv =
    let late = get-InRange p.start p.end p.worker w (holding j) inv.workers at' in
    moved p w (holding j) (running j) inv at' (late, low) (λ i h. refl)
WorkerStep-Invariant p _ w (give_up j at' high) inv =
    moved p w (holding j) reporting inv at' tt (λ i h. ground arith)
WorkerStep-Invariant p _ w (complete j at' fits) inv =
    let here = get-InRange p.start p.end p.worker w (running j) inv.workers at' in
    record {
      ordered = inv.ordered;
      workers = set-InRange p.start p.end p.worker w claiming inv.workers tt;
      range = (here, inv.range);
      counted = omega (arith, inv.counted);
      once = λ i low. omega (arith, inv.once i low, held-set i p.worker w (running j) claiming at');
    }
WorkerStep-Invariant p _ w (report at' fits) inv =
    let m = moved p w reporting asleep inv at' tt (λ i low. refl) in
    record {
      ordered = m.ordered;
      workers = m.workers;
      range = m.range;
      counted = m.counted;
      once = m.once;
    }

Step-Invariant : (p q : Pool) → Step AllAsleep p q → Invariant p → Invariant q
unfolding dispatch finish
Step-Invariant p _ (work w step) inv = WorkerStep-Invariant p _ w step inv
Step-Invariant p _ (call start end idle less fits ready) inv = record {
  ordered = omega arith;
  workers = asleep-InRange start end p.worker ready;
  range = tt;
  counted = omega arith;
  once = λ i low. ground (arith, held-AllAsleep i p.worker ready);
}
Step-Invariant p _ (return busy done) inv = record {
  ordered = inv.ordered;
  workers = inv.workers;
  range = inv.range;
  counted = inv.counted;
  once = inv.once;
}
Step-Invariant p _ (destroy idle) inv = record {
  ordered = inv.ordered;
  workers = inv.workers;
  range = inv.range;
  counted = inv.counted;
  once = inv.once;
}

pub Reachable-Invariant : {n : ℕ} {p : Pool} → Reachable AllAsleep n p → Invariant p
unfolding pthreads_create
Reachable-Invariant {n} first =
    let all = replicate-AllAsleep (if ltb n 1 then 1 else n) in
    record {
      ordered = omega arith;
      workers = asleep-InRange 0 0 _ all;
      range = tt;
      counted = omega arith;
      once = λ i low. absurd (omega arith);
    }
Reachable-Invariant (next r step) = Step-Invariant _ _ step (Reachable-Invariant r)

-- How many entries of a list are among the `n` numbers from `i` on.
total : List ℕ → ℕ → ℕ → ℕ
total xs i zero = 0
total xs i (suc n) = runs_of i xs + total xs (suc i) n

total-nil : (i n : ℕ) → total [] i n ≡ 0
unfolding total
total-nil i zero = refl
total-nil i (suc n) = omega (arith, total-nil (suc i) n)

total-cons :
    (x : ℕ) (xs : List ℕ) (i n : ℕ)
    → total (x ∷ xs) i n ≡ (if leb i x && ltb x (i + n) then 1 else 0) + total xs i n
unfolding total
total-cons x xs i zero = ground arith
total-cons x xs i (suc n) = ground (arith, total-cons x xs (suc i) n)

length-le-total :
    (start end n : ℕ) (xs : List ℕ)
    → end ≡ start + n
    → Every (λ i. (start ≤ i) × (i < end)) xs
    → length xs ≤ total xs start n
length-le-total start end n [] e h = omega arith
length-le-total start end n (x ∷ xs) e ((low, high), h) =
    ground (arith, total-cons x xs start n, length-le-total start end n xs e h)

module _ (xs : List ℕ) (once : (i : ℕ) → runs_of i xs ≤ 1) where
  total-le : (i n : ℕ) → total xs i n ≤ n
  unfolding total
  total-le i zero = omega arith
  total-le i (suc n) = omega (arith, once i, total-le (suc i) n)

  all_once : (i n j : ℕ) → n ≤ total xs i n → i ≤ j → j < i + n → runs_of j xs ≡ 1
  unfolding total
  all_once i zero j full low high = absurd (omega arith)
  all_once i (suc n) j full low high = elim (Bool-cases (i == j)) [
    | inl here ↦
        let same : i ≡ j = ground (arith, here) in
        rw (← same) (omega (arith, once i, total-le (suc i) n))
    | inr later ↦
        let low' : suc i ≤ j = ground (arith, later) in
        all_once (suc i) n j (omega (arith, once i)) low' (omega arith)
  ]

runs_of-outside :
    (start end i : ℕ) (xs : List ℕ)
    → Every (λ j. (start ≤ j) × (j < end)) xs
    → end ≤ i
    → runs_of i xs ≡ 0
runs_of-outside start end i [] h far = refl
runs_of-outside start end i (x ∷ xs) ((low, high), h) far =
    ground (arith, runs_of-outside start end i xs h far)

module _ (p : Pool) (inv : Invariant p) where
  at_most : (j : ℕ) → runs_of j p.ran ≤ 1
  at_most j = elim (Bool-cases (ltb j p.end)) [
    | inl before ↦ let low : j < p.end = ground (arith, before) in ground (arith, inv.once j low)
    | inr after ↦
        let far : p.end ≤ j = ground (arith, after) in
        omega (arith, runs_of-outside p.start p.end j p.ran inv.range far)
  ]

  done_once :
      p.start < p.end
      → p.end ≤ p.done_work
      → (i : ℕ) → i < p.end
      → (runs_of i p.ran ≡ (if leb p.start i then 1 else 0)) × (held i p.worker ≡ 0)
  done_once less enough i low =
      let e : p.end ≡ p.start + (p.end - p.start) = omega arith in
      let full : p.end - p.start ≤ total p.ran p.start (p.end - p.start) =
        omega
          (arith, inv.counted, length-le-total p.start p.end (p.end - p.start) p.ran e inv.range) in
      elim (Bool-cases (leb p.start i)) [
        | inl inside ↦
            let one =
              all_once p.ran at_most p.start (p.end - p.start) i full (ground (arith, inside))
                (omega arith) in
            ground (arith, one, inside, inv.once i low)
        | inr outside ↦ ground (arith, outside, inv.once i low)
      ]

-- When every call of `pthreads_parallel_for` finds all workers at the head of their loop and no counter
-- passes the largest int: at the moment the call returns, the work was done exactly once for each index from `start` to before `end`,
-- for no other index, and no worker is still at one of them.
pub parallel_for-once :
    {n : ℕ} {p : Pool}
    → Reachable AllAsleep n p
    → p.start < p.end
    → is_done p ≡ true
    → (i : ℕ)
    → (runs_of i p.ran ≡ (if leb p.start i && ltb i p.end then 1 else 0))
      × ((if ltb i p.end then held i p.worker else 0) ≡ 0)
unfolding is_done
parallel_for-once {n} {p} r less done i =
    let inv = Reachable-Invariant r in
    let enough : p.end ≤ p.done_work = ground (arith, done) in
    elim (Bool-cases (ltb i p.end)) [
      | inl before ↦
          let low : i < p.end = ground (arith, before) in
          ground (arith, done_once p inv less enough i low, before)
      | inr after ↦
          let far : p.end ≤ i = ground (arith, after) in
          ground (arith, runs_of-outside p.start p.end i p.ran inv.range far, after)
    ]
