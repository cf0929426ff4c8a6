-- ===== src/Tests/Pools.antt =====
-- The thread pool with two workers: one call, and a second call that comes too soon.
use tinyllama_c.Prelude.{
  ℕ, ◌<◌, ◌^◌, ◌≤◌, ◌≡◌, refl, ◌&&◌, Bool, true, List, [], ◌∷◌, ltb, leb, if◌then◌else◌, arith,
}
use tinyllama_c.Threads.{
  Worker, Pool, pthreads_create, dispatch, is_done, finish, WorkerStep, wake, claim, begin, give_up,
  complete, report, AllAsleep, work, call, return, Reachable, first, next,
}
use tinyllama_c.Threads.Once.{runs_of, held, parallel_for-once}

abbrev Any : List Worker → Type 0
Any ws = Unit {0}

int_1 : 1 < 2 ^ 31
int_1 = omega arith

int_2 : 2 < 2 ^ 31
int_2 = omega arith

int_3 : 3 < 2 ^ 31
int_3 = omega arith

int_4 : 4 < 2 ^ 31
int_4 = omega arith

lt_0_1 : 0 < 1
lt_0_1 = omega arith

le_1_2 : 1 ≤ 2
le_1_2 = omega arith

le_1_3 : 1 ≤ 3
le_1_3 = omega arith

lt_0_2 : 0 < 2
lt_0_2 = omega arith

lt_1_2 : 1 < 2
lt_1_2 = omega arith

module _ {Ready : List Worker → Type 0} {n : ℕ} {p q : Pool} where
  then_work : Reachable Ready n p → (w : ℕ) → WorkerStep p w q → Reachable Ready n q
  then_work r w step = next r (work w step)

-- One worker does the only index of the call, and reports; the other has taken one past the end.
abbrev one_done : Pool
one_done = record {
  worker = Worker.asleep ∷ Worker.holding 1 ∷ [];
  start = 0;
  end = 1;
  current = 4;
  done_count = 2;
  done_work = 1;
  busy = true;
  shutdown = Bool.false;
  waiting = true;
  ran = 0 ∷ [];
}

module _ {Ready : List Worker → Type 0} (ready : Ready (pthreads_create 2).worker) where
  one_call : Reachable Ready 2 one_done
  unfolding pthreads_create dispatch
  one_call =
      let r : Reachable Ready 2 (pthreads_create 2) = first in
      let r = next r (call 0 1 refl lt_0_1 int_1 ready) in
      let r = then_work r 1 (wake refl refl refl) in
      let r = then_work r 0 (wake refl refl refl) in
      let r = then_work r 0 (claim refl int_1) in
      let r = then_work r 0 (begin 0 refl lt_0_1) in
      let r = then_work r 0 (complete 0 refl int_1) in
      let r = then_work r 1 (claim refl int_2) in
      let r = then_work r 0 (claim refl int_3) in
      let r = then_work r 0 (give_up 2 refl le_1_2) in
      let r = then_work r 0 (report refl int_1) in
      let r = then_work r 0 (wake refl refl refl) in
      let r = then_work r 0 (claim refl int_4) in
      let r = then_work r 0 (give_up 3 refl le_1_3) in then_work r 0 (report refl int_2)

parallel_for-once_example :
    (runs_of 0 one_done.ran ≡ (if leb one_done.start 0 && ltb 0 one_done.end then 1 else 0))
    × ((if ltb 0 one_done.end then held 0 one_done.worker else 0) ≡ 0)
unfolding pthreads_create is_done
parallel_for-once_example =
    parallel_for-once (one_call {Ready = AllAsleep} (refl, (refl, tt))) (omega arith) refl 0

abbrev one_twice : Pool
one_twice = record {
  worker = Worker.claiming ∷ Worker.claiming ∷ [];
  start = 0;
  end = 2;
  current = 2;
  done_count = 0;
  done_work = 3;
  busy = true;
  shutdown = Bool.false;
  waiting = true;
  ran = 1 ∷ 1 ∷ 0 ∷ [];
}

-- The call returns although the second worker has not reported. In the next call it runs the index
-- that it still holds, and the first worker runs the same index.
two_calls : Reachable Any 2 one_twice
unfolding is_done finish dispatch
two_calls =
    let r = next (one_call {Ready = Any} tt) (return refl refl) in
    let r = next r (call 0 2 refl lt_0_2 int_2 tt) in
    let r = then_work r 1 (begin 1 refl lt_1_2) in
    let r = then_work r 0 (wake refl refl refl) in
    let r = then_work r 0 (claim refl int_1) in
    let r = then_work r 0 (begin 0 refl lt_0_2) in
    let r = then_work r 0 (complete 0 refl int_1) in
    let r = then_work r 0 (claim refl int_2) in
    let r = then_work r 0 (begin 1 refl lt_1_2) in
    let r = then_work r 0 (complete 1 refl int_2) in then_work r 1 (complete 1 refl int_3)

runs_twice : runs_of 1 one_twice.ran ≡ 2
runs_twice = refl
