-- ===== src/Threads.antt =====
-- The thread pool of `src/pthreads.c`. A step is what a thread does to the shared state at once: a
-- section under the lock, a successful compare-and-swap, an atomic addition, or a read of `end`. A
-- failed compare-and-swap changes nothing. The counters are ints from 0 on; past the largest there is no
-- step, since to overflow them is undefined or wraps below 0.
pub mod Once
use tinyllama_c.Prelude.{
  ℕ, zero, suc, ◌+◌, ◌≤◌, ◌<◌, ◌^◌, ◌≡◌, Bool, true, false, ◌&&◌, List, [], ◌∷◌, ◌++◌, some, ltb,
  leb, ◌==◌, if◌then◌else◌, length, get_elem?, set, replicate,
}

-- Where a worker is in `worker_loop`.
pub data Worker : Type 0 where
  -- at the head of the loop, with the lock or waiting for it
  asleep : Worker
  claiming : Worker
  -- after the compare-and-swap, before `i >= pool->end`
  holding : ℕ → Worker
  -- in `pool->work(pool->work_arg, tid, i)`
  running : ℕ → Worker
  reporting : Worker
  gone : Worker

-- The fields that the threads share. `busy` is `work != NULL`; `waiting` is the caller of
-- `pthreads_parallel_for`. `ran` has the indices for which the work of this call was done.
pub record Pool : Type 0 where
  pub worker : List Worker
  pub start : ℕ
  pub end : ℕ
  pub current : ℕ
  pub done_count : ℕ
  pub done_work : ℕ
  pub busy : Bool
  pub shutdown : Bool
  pub waiting : Bool
  pub ran : List ℕ

unfoldable pub pthreads_create : ℕ → Pool
pthreads_create nthreads = record {
  worker = replicate (if ltb nthreads 1 then 1 else nthreads) asleep;
  start = 0;
  end = 0;
  current = 0;
  done_count = 0;
  done_work = 0;
  busy = false;
  shutdown = false;
  waiting = false;
  ran = [];
}

-- The first section of `pthreads_parallel_for`.
unfoldable pub dispatch : ℕ → ℕ → Pool → Pool
dispatch start end p = record p {
  start = start;
  end = end;
  current = start;
  done_count = 0;
  done_work = start;
  busy = true;
  waiting = true;
  ran = [];
}

-- `while (pool->done_count < pool->nthreads || pool->done_work < end)`
unfoldable pub is_done : Pool → Bool
is_done p = leb (length p.worker) p.done_count && leb p.end p.done_work

-- `pool->work = NULL`, and the return.
unfoldable pub finish : Pool → Pool
finish p = record p { busy = false; waiting = false }

abbrev pub move : Pool → ℕ → Worker → Pool
move p w x = record p { worker = set p.worker w x }

-- One more than a counter is an int.
abbrev pub CountsOn : ℕ → Type 0
CountsOn n = n + 1 < 2 ^ 31

-- A step of worker `w`.
pub data WorkerStep (p : Pool) (w : ℕ) : Pool → Type 0 where
  wake :
      get_elem? p.worker w ≡ some asleep
      → p.shutdown ≡ false
      → p.busy ≡ true
      → WorkerStep p w (move p w claiming)
  leave : get_elem? p.worker w ≡ some asleep → p.shutdown ≡ true → WorkerStep p w (move p w gone)
  claim :
      get_elem? p.worker w ≡ some claiming
      → CountsOn p.current
      → WorkerStep p w (record (move p w (holding p.current)) { current = p.current + 1 })
  begin :
      (i : ℕ)
      → get_elem? p.worker w ≡ some (holding i)
      → i < p.end
      → WorkerStep p w (move p w (running i))
  give_up :
      (i : ℕ)
      → get_elem? p.worker w ≡ some (holding i)
      → p.end ≤ i
      → WorkerStep p w (move p w reporting)
  complete :
      (i : ℕ)
      → get_elem? p.worker w ≡ some (running i)
      → CountsOn p.done_work
      → WorkerStep p w (record (move p w claiming) { done_work = p.done_work + 1; ran = i ∷ p.ran })
  report :
      get_elem? p.worker w ≡ some reporting
      → CountsOn p.done_count
      → WorkerStep p w (record (move p w asleep) { done_count = p.done_count + 1 })

abbrev pub AllAsleep : List Worker → Type 0
AllAsleep [] = Unit {0}
AllAsleep (x ∷ xs) = (x ≡ asleep) × AllAsleep xs

-- One step of the pool and its caller; `Ready` is what a call of `pthreads_parallel_for` finds.
pub data Step (Ready : List Worker → Type 0) (p : Pool) : Pool → Type 0 where
  work : {q : Pool} (w : ℕ) → WorkerStep p w q → Step Ready p q
  call :
      (start end : ℕ)
      → p.waiting ≡ false
      → start < end
      → end < 2 ^ 31
      → Ready p.worker
      → Step Ready p (dispatch start end p)
  return : p.waiting ≡ true → is_done p ≡ true → Step Ready p (finish p)
  -- `pthreads_destroy`
  destroy : p.waiting ≡ false → Step Ready p (record p { shutdown = true })

pub data Reachable (Ready : List Worker → Type 0) (n : ℕ) : Pool → Type 0 where
  first : Reachable Ready n (pthreads_create n)
  next : {p q : Pool} → Reachable Ready n p → Step Ready p q → Reachable Ready n q
