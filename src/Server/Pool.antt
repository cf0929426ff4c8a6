-- ===== src/Server/Pool.antt =====
-- The pool of request workers of `src/server.c`. What a thread does while it holds the lock is one
-- step; between steps the threads interleave freely. `pthread_cond_wait` only delays a worker until
-- a step of it can be taken.
pub mod Ring
pub mod Traces
use tinyllama_c.Prelude.{
  ℕ, zero, suc, ◌+◌, ◌-◌, ◌%◌, ◌≡◌, Bool, true, false, ◌||◌, List, [], ◌∷◌, ◌++◌, Option, none,
  some, ltb, ◌==◌, if◌then◌else◌, get_or, get_elem?, set, replicate,
}

pub record ClientJob : Type 0 where
  pub fd : ℕ
  pub body : List ℕ

-- `JOB_QUEUE_CAP`
abbrev pub job_queue_cap : ℕ
job_queue_cap = 256

-- The queue and its counters; what a zeroed entry holds is never read.
pub record WorkerPool : Type 0 where
  pub queue : List ClientJob
  pub head : ℕ
  pub tail : ℕ
  pub count : ℕ
  pub stop : Bool

abbrev pub zero_job : ClientJob
zero_job = record { fd = 0; body = [] }

unfoldable pub worker_pool_create : WorkerPool
worker_pool_create = record {
  queue = replicate job_queue_cap zero_job;
  head = 0;
  tail = 0;
  count = 0;
  stop = false;
}

-- The result `ok`, and the pool after it.
unfoldable pub worker_pool_submit : WorkerPool → ClientJob → Bool × WorkerPool
worker_pool_submit pool job = if pool.stop || pool.count == job_queue_cap then (false, pool) else (
  true,
  record pool {
    queue = set pool.queue pool.tail job;
    tail = (pool.tail + 1) % job_queue_cap;
    count = pool.count + 1;
  },
)

-- The critical section of `worker_main`, where it does not wait.
pub data Turn : Type 0 where
  wait : Turn
  leave : Turn
  take_job : ClientJob → WorkerPool → Turn

unfoldable pub worker_turn : WorkerPool → Turn
worker_turn pool =
    if pool.count == 0
    then (if pool.stop then leave else wait)
    else take_job (get_or pool.queue pool.head zero_job)
        (record pool { head = (pool.head + 1) % job_queue_cap; count = pool.count - 1 })

-- `pool->stop = true`, of `worker_pool_destroy`.
unfoldable pub request_stop : WorkerPool → WorkerPool
request_stop pool = record pool { stop = true }

-- Where a worker is in its loop.
pub data WorkerState : Type 0 where
  waiting : WorkerState
  handling : ClientJob → WorkerState
  returned : WorkerState

-- The pool and its workers, with the jobs that were accepted and those that were taken, in order.
pub record System : Type 0 where
  pub pool : WorkerPool
  pub worker : List WorkerState
  pub accepted : List ClientJob
  pub taken : List ClientJob

unfoldable pub start : ℕ → System
start n = record {
  pool = worker_pool_create;
  worker = replicate n waiting;
  accepted = [];
  taken = [];
}

unfoldable pub after_submit : System → ClientJob → System
after_submit s job =
    let (ok, pool) = worker_pool_submit s.pool job in
    record s { pool = pool; accepted = if ok then s.accepted ++ job ∷ [] else s.accepted }

-- One step of a thread.
pub data Step : System → System → Type 0 where
  submit : {s s' : System} (job : ClientJob) → s' ≡ after_submit s job → Step s s'
  take :
      {s s' : System} (w : ℕ) (job : ClientJob) (pool : WorkerPool)
      → get_elem? s.worker w ≡ some waiting
      → worker_turn s.pool ≡ take_job job pool
      → s' ≡ record s {
        pool = pool;
        worker = set s.worker w (handling job);
        taken = s.taken ++ job ∷ [];
      }
      → Step s s'
  finish :
      {s s' : System} (w : ℕ) (job : ClientJob)
      → get_elem? s.worker w ≡ some (handling job)
      → s' ≡ record s { worker = set s.worker w waiting }
      → Step s s'
  quit :
      {s s' : System} (w : ℕ)
      → get_elem? s.worker w ≡ some waiting
      → worker_turn s.pool ≡ leave
      → s' ≡ record s { worker = set s.worker w returned }
      → Step s s'
  shut : {s s' : System} → s' ≡ record s { pool = request_stop s.pool } → Step s s'

-- Any number of steps from a new pool of `n` workers.
pub data Reachable (n : ℕ) : System → Type 0 where
  first : {s : System} → s ≡ start n → Reachable n s
  next : {s s' : System} → Reachable n s → Step s s' → Reachable n s'
