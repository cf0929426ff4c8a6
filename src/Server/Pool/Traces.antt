-- ===== src/Server/Pool/Traces.antt =====
-- Every interleaving of the threads: jobs are taken in the order in which they were accepted, none
-- is lost or taken twice, and workers leave only when all are taken.
use mathlib.Core.Option
use mathlib.Core.List.{append_assoc, append-nil}
use mathlib.Core.Path.{subst}
use tinyllama_c.Prelude.{
  ℕ, zero, suc, ◌≡◌, refl, ◌∙◌, ap, sym, Bool, true, false, List, [], ◌∷◌, ◌++◌, some,
  if◌then◌else◌, get_elem?, set, replicate,
}
use tinyllama_c.Server.Pool.{
  ClientJob, WorkerPool, worker_pool_create, Turn, leave, take_job, worker_turn, request_stop,
  WorkerState, waiting, handling, returned, System, start, after_submit, Step, submit, take, finish,
  quit, shut, Reachable, first, next,
}
use tinyllama_c.Server.Pool.Ring.{
  contents, jobs_from, IsRing, worker_pool_create-IsRing, Submits, refused, accepted,
  worker_pool_submit-Submits, Turns, waits, leaves, takes, worker_turn-Turns,
}

pub record Invariant (s : System) : Type 0 where
  pub ring : IsRing s.pool
  pub fifo : s.taken ++ contents s.pool ≡ s.accepted
  pub drained :
      (w : ℕ) → get_elem? s.worker w ≡ some returned → (s.pool.stop ≡ true) × (contents s.pool ≡ [])

get_elem?-replicate :
    (n w : ℕ) {x : WorkerState} → get_elem? (replicate n waiting) w ≡ some x → x ≡ waiting
get_elem?-replicate zero w h = cc
get_elem?-replicate (suc n) zero h = cc
get_elem?-replicate (suc n) (suc w) h = get_elem?-replicate n w h

-- A worker that has not returned and is set to another state than returned.
get_elem?-set_returned :
    (ws : List WorkerState) (i w : ℕ) (x : WorkerState)
    → ¬ (x ≡ returned)
    → get_elem? (set ws i x) w ≡ some returned
    → get_elem? ws w ≡ some returned
get_elem?-set_returned [] i w x apart h = h
get_elem?-set_returned (y ∷ ws) zero zero x apart h = absurd (apart (Option.some-injective _ _ h))
get_elem?-set_returned (y ∷ ws) zero (suc w) x apart h = h
get_elem?-set_returned (y ∷ ws) (suc i) zero x apart h = h
get_elem?-set_returned (y ∷ ws) (suc i) (suc w) x apart h = get_elem?-set_returned ws i w x apart h

never : (n w : ℕ) → ¬ (get_elem? (replicate n waiting) w ≡ some returned)
never n w h = let e : returned ≡ waiting = get_elem?-replicate n w h in cc

start-Invariant : (n : ℕ) → Invariant (start n)
unfolding start worker_pool_create contents jobs_from
start-Invariant n = record {
  ring = worker_pool_create-IsRing;
  fifo = refl;
  drained = λ w h. absurd (never n w h);
}

submit-Invariant :
    (s : System) (job : ClientJob) (ok : Bool) (pool : WorkerPool)
    → Submits s.pool job ok pool
    → Invariant s
    → Invariant
        (record s { pool = pool; accepted = if ok then s.accepted ++ job ∷ [] else s.accepted })
submit-Invariant s job _ _ (refused why) inv = record {
  ring = inv.ring;
  fifo = inv.fifo;
  drained = inv.drained;
}
submit-Invariant s job _ _ (accepted pool running ring same queue) inv = record {
  ring = ring;
  fifo =
      ap (λ q. s.taken ++ q) queue
      ∙ sym (append_assoc s.taken (contents s.pool) (job ∷ []))
      ∙ ap (λ q. q ++ job ∷ []) inv.fifo;
  drained = λ w h. let stopped = (inv.drained w h).0 in absurd (open_and_shut running stopped);
}
  where
    open_and_shut : {b : Bool} → b ≡ false → b ≡ true → ⊥
    open_and_shut p q = cc

takes-inv :
    (pool pool' : WorkerPool) (job : ClientJob) (t : Turn)
    → Turns pool t
    → t ≡ take_job job pool'
    → IsRing pool' × (contents pool ≡ job ∷ contents pool')
takes-inv pool pool' job _ (waits a b) e = absurd (cc)
takes-inv pool pool' job _ (leaves a b) e = absurd (cc)
takes-inv pool pool' job _ (takes j p ring same queue) e =
    let ej : j ≡ job = cc in
    let ep : p ≡ pool' = cc in (subst IsRing ep ring, queue ∙ λ i. ej i ∷ contents (ep i))

leaves-inv :
    (pool : WorkerPool) (t : Turn)
    → Turns pool t
    → t ≡ leave
    → (pool.stop ≡ true) × (contents pool ≡ [])
leaves-inv pool _ (waits a b) e = absurd (cc)
leaves-inv pool _ (leaves a b) e = (a, b)
leaves-inv pool _ (takes j p ring same queue) e = absurd (cc)

take-Invariant :
    (s : System) (w : ℕ) (job : ClientJob) (pool : WorkerPool)
    → worker_turn s.pool ≡ take_job job pool
    → Invariant s
    → Invariant (record s {
      pool = pool;
      worker = set s.worker w (handling job);
      taken = s.taken ++ job ∷ [];
    })
take-Invariant s w job pool turn inv =
    let (ring, queue) =
      takes-inv s.pool pool job (worker_turn s.pool) (worker_turn-Turns s.pool inv.ring) turn in
    record {
      ring = ring;
      fifo =
          append_assoc s.taken (job ∷ []) (contents pool)
          ∙ ap (λ q. s.taken ++ q) (sym queue)
          ∙ inv.fifo;
      drained = λ i h.
          let old = get_elem?-set_returned s.worker w i (handling job) (λ e. cc) h in
          let bare = (inv.drained i old).1 in absurd (cons_or_not (sym queue ∙ bare));
    }
  where
    cons_or_not : {j : ClientJob} {q : List ClientJob} → j ∷ q ≡ [] → ⊥
    cons_or_not e = cc

quit-Invariant :
    (s : System) (w : ℕ)
    → worker_turn s.pool ≡ leave
    → Invariant s
    → Invariant (record s { worker = set s.worker w returned })
quit-Invariant s w turn inv = record {
  ring = inv.ring;
  fifo = inv.fifo;
  drained = λ i h. leaves-inv s.pool (worker_turn s.pool) (worker_turn-Turns s.pool inv.ring) turn;
}

Step-Invariant : (s s' : System) → Invariant s → Step s s' → Invariant s'
unfolding after_submit request_stop
Step-Invariant s s' inv (submit job e) =
    subst Invariant (sym e)
      (submit-Invariant s job _ _ (worker_pool_submit-Submits s.pool job inv.ring) inv)
Step-Invariant s s' inv (take w job pool at turn e) =
    subst Invariant (sym e) (take-Invariant s w job pool turn inv)
Step-Invariant s s' inv (finish w job at e) = subst Invariant (sym e) (record {
  ring = inv.ring;
  fifo = inv.fifo;
  drained = λ i h. inv.drained i (get_elem?-set_returned s.worker w i waiting (λ e'. cc) h);
})
Step-Invariant s s' inv (quit w at turn e) = subst Invariant (sym e) (quit-Invariant s w turn inv)
Step-Invariant s s' inv (shut e) = subst Invariant (sym e) (record {
  ring = record {
    size = inv.ring.size;
    head = inv.ring.head;
    tail = inv.ring.tail;
    count = inv.ring.count;
  };
  fifo = unfold contents in inv.fifo;
  drained = λ w h. (refl, unfold contents in (inv.drained w h).1);
})

Reachable-Invariant : (n : ℕ) (s : System) → Reachable n s → Invariant s
Reachable-Invariant n s (first e) = subst Invariant (sym e) (start-Invariant n)
Reachable-Invariant n s (next {s = s₀} r step) =
    Step-Invariant s₀ s (Reachable-Invariant n s₀ r) step

-- However the threads interleave, the jobs that were taken, followed by those that wait, are the
-- jobs that were accepted, in their order; so none is lost, doubled or overtaken.
pub Reachable-fifo : (n : ℕ) (s : System) → Reachable n s → s.taken ++ contents s.pool ≡ s.accepted
Reachable-fifo n s r = (Reachable-Invariant n s r).fifo

-- However the threads interleave, once a worker has returned the pool was told to stop and every
-- job that was accepted has been taken by some worker.
pub Reachable-drained :
    (n : ℕ) (s : System) (w : ℕ)
    → Reachable n s
    → get_elem? s.worker w ≡ some returned
    → (s.pool.stop ≡ true) × (s.taken ≡ s.accepted)
Reachable-drained n s w r gone =
    let inv = Reachable-Invariant n s r in
    let (stopped, bare) = inv.drained w gone in
    (stopped, sym (append-nil s.taken) ∙ ap (λ q. s.taken ++ q) (sym bare) ∙ inv.fifo)
