-- ===== src/Server/Pool/Ring.antt =====
-- The ring of jobs is a queue: a job goes in at the back, and comes out at the front.
use mathlib.Core.Path.{subst}
use tinyllama_c.Prelude.{
  ℕ, zero, suc, ◌+◌, ◌-◌, ◌%◌, ◌≤◌, ◌<◌, ◌≡◌, ◌≢◌, ◌⊎◌, inl, inr, refl, ◌∙◌, ap, sym, Bool, true,
  false, ◌||◌, List, [], ◌∷◌, ◌++◌, arith, ◌==◌, get_or, set, length, length-set, get_or-set_ne,
  get_or-set_self, length-replicate, Bool-cases, ==_iff,
}
use tinyllama_c.Server.Pool.{
  ClientJob, WorkerPool, job_queue_cap, zero_job, worker_pool_create, worker_pool_submit, Turn,
  wait, leave, take_job, worker_turn,
}

-- The `n` jobs from `head` on.
unfoldable pub jobs_from : List ClientJob → ℕ → ℕ → List ClientJob
jobs_from q head zero = []
jobs_from q head (suc n) = get_or q head zero_job ∷ jobs_from q ((head + 1) % job_queue_cap) n

-- The jobs that wait, first in first.
unfoldable pub contents : WorkerPool → List ClientJob
contents pool = jobs_from pool.queue pool.head pool.count

pub record IsRing (pool : WorkerPool) : Type 0 where
  pub size : length pool.queue ≡ job_queue_cap
  pub head : pool.head < job_queue_cap
  pub tail : pool.tail ≡ (pool.head + pool.count) % job_queue_cap
  pub count : pool.count ≤ job_queue_cap

pub worker_pool_create-IsRing : IsRing worker_pool_create
unfolding worker_pool_create
worker_pool_create-IsRing = record {
  size = length-replicate job_queue_cap zero_job;
  head = omega arith;
  tail = omega arith;
  count = omega arith;
}

jobs_from-set :
    (q : List ClientJob) (head n t : ℕ) (job : ClientJob)
    → length q ≡ job_queue_cap
    → head < job_queue_cap
    → n < job_queue_cap
    → t ≡ (head + n) % job_queue_cap
    → jobs_from (set q t job) head (suc n) ≡ jobs_from q head n ++ job ∷ []
unfolding jobs_from
jobs_from-set q head zero t job size lt room e =
    let here : head ≡ t = omega arith in
    ap (λ x. x ∷ []) (rw here (get_or-set_self q t job zero_job (omega arith)))
jobs_from-set q head (suc n) t job size lt room e =
    let apart : t ≢ head = ground arith in
    let back : t ≡ ((head + 1) % job_queue_cap + n) % job_queue_cap = omega arith in
    let rest =
      jobs_from-set q ((head + 1) % job_queue_cap) n t job size (omega arith) (omega arith) back in
    λ i. get_or-set_ne q t head job zero_job apart i ∷ rest i

length-jobs_from : (q : List ClientJob) (head n : ℕ) → length (jobs_from q head n) ≡ n
unfolding jobs_from
length-jobs_from q head zero = refl
length-jobs_from q head (suc n) = ap suc (length-jobs_from q ((head + 1) % job_queue_cap) n)

abbrev pushed : WorkerPool → ClientJob → WorkerPool
pushed pool job = record pool {
  queue = set pool.queue pool.tail job;
  tail = (pool.tail + 1) % job_queue_cap;
  count = pool.count + 1;
}

pushed-IsRing :
    (pool : WorkerPool) (job : ClientJob)
    → IsRing pool
    → pool.count < job_queue_cap
    → IsRing (pushed pool job)
pushed-IsRing pool job ring room = record {
  size = length-set pool.queue pool.tail job ∙ ring.size;
  head = ring.head;
  tail = omega (arith, ring.tail);
  count = omega arith;
}

pushed-contents :
    (pool : WorkerPool) (job : ClientJob)
    → IsRing pool
    → pool.count < job_queue_cap
    → contents (pushed pool job) ≡ contents pool ++ job ∷ []
unfolding contents
pushed-contents pool job ring room =
    let more : pool.count + 1 ≡ suc pool.count = omega arith in
    ap (jobs_from (set pool.queue pool.tail job) pool.head) more
    ∙ jobs_from-set pool.queue pool.head pool.count pool.tail job ring.size ring.head room ring.tail

-- What a submission does to a ring: it is refused with no change when the pool is stopped or holds
-- 256 jobs; otherwise the job is the last that waits.
pub data Submits (pool : WorkerPool) (job : ClientJob) : Bool → WorkerPool → Type 0 where
  refused :
      (pool.stop ≡ true) ⊎ (length (contents pool) ≡ job_queue_cap) → Submits pool job false pool
  accepted :
      (pool' : WorkerPool)
      → pool.stop ≡ false
      → IsRing pool'
      → pool'.stop ≡ pool.stop
      → contents pool' ≡ contents pool ++ job ∷ []
      → Submits pool job true pool'

-- On a well-formed ring a submission is one of the two.
pub worker_pool_submit-Submits :
    (pool : WorkerPool) (job : ClientJob)
    → IsRing pool
    → Submits pool job ((worker_pool_submit pool job).0) ((worker_pool_submit pool job).1)
unfolding worker_pool_submit contents jobs_from
worker_pool_submit-Submits pool job ring =
    elim (Bool-cases (pool.stop || pool.count == job_queue_cap)) [
      | inl e ↦ rw e (
          refused (elim (Bool-cases pool.stop) [
            | inl stopped ↦ inl stopped
            | inr open_still ↦ inr (length-jobs_from pool.queue pool.head pool.count ∙ ground arith)
          ]))
      | inr e ↦
          let room : pool.count < job_queue_cap = ground arith in
          rw e (
            accepted (pushed pool job) (ground arith) (pushed-IsRing pool job ring room) refl
              (pushed-contents pool job ring room))
    ]

-- What a worker's turn does with a ring: with jobs it takes the one that has waited longest; with
-- none it leaves if the pool is stopped, and waits otherwise.
pub data Turns (pool : WorkerPool) : Turn → Type 0 where
  waits : pool.stop ≡ false → contents pool ≡ [] → Turns pool wait
  leaves : pool.stop ≡ true → contents pool ≡ [] → Turns pool leave
  takes :
      (job : ClientJob) (pool' : WorkerPool)
      → IsRing pool'
      → pool'.stop ≡ pool.stop
      → contents pool ≡ job ∷ contents pool'
      → Turns pool (take_job job pool')

turn-leave :
    (pool : WorkerPool) → (pool.count == 0) ≡ true → pool.stop ≡ true → worker_turn pool ≡ leave
unfolding worker_turn
turn-leave pool e stopped = ground arith

turn-wait :
    (pool : WorkerPool) → (pool.count == 0) ≡ true → pool.stop ≡ false → worker_turn pool ≡ wait
unfolding worker_turn
turn-wait pool e open_still = ground arith

-- On a well-formed ring the turn of a worker is one of the three.
pub worker_turn-Turns : (pool : WorkerPool) → IsRing pool → Turns pool (worker_turn pool)
unfolding worker_turn contents
worker_turn-Turns pool ring = elim (Bool-cases (pool.count == 0)) [
  | inl e ↦
      let bare : jobs_from pool.queue pool.head pool.count ≡ [] =
        ap (jobs_from pool.queue pool.head) ((==_iff _ _).0 e) ∙ unfold jobs_from in refl in
      elim (Bool-cases pool.stop) [
        | inl stopped ↦ subst (Turns pool) (sym (turn-leave pool e stopped)) (leaves stopped bare)
        | inr open_still ↦
            subst (Turns pool) (sym (turn-wait pool e open_still)) (waits open_still bare)
      ]
  | inr e ↦
      let more : pool.count ≡ suc (pool.count - 1) = ground arith in
      rw e (
        takes (get_or pool.queue pool.head zero_job)
          (record pool { head = (pool.head + 1) % job_queue_cap; count = pool.count - 1 })
          (record {
            size = ring.size;
            head = omega arith;
            tail = omega (arith, ring.tail);
            count = omega arith;
          })
          refl (ap (jobs_from pool.queue pool.head) more ∙ unfold jobs_from in refl))
]
