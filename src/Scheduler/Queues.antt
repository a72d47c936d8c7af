-- ===== src/Scheduler/Queues.antt =====
-- What holds of the scheduler between calls, and the round robin of `schedule`.
use mjos.Base.{ℕ, ◌≡◌, ◌≢◌, List, [], ◌∷◌, ◌++◌, true, false, some, arith, ◌∈◌, mem-snoc}
use mjos.ListHead.{list_init, list_add_tail, list_remove}
use mjos.ListHead.Ring.{IsRing-frame, list_init-IsRing, list_init-frame}
use mjos.ListHead.Pair.{IsPair, add_tail-IsPair, remove-IsPair}
use mjos.ListHead.Unlink.{list_empty-nil, list_empty-cons, list_pop_head-cons}
use mjos.Scheduler.{Sched, thread_running, thread_blocked, schedule, scheduler_init}

-- `rs` are the running threads, first to run first, and `bs` the blocked ones; no thread is both,
-- and each thread's state says which it is.
pub record Holds (sys : Sched) (rs bs : List ℕ) : Type 0 where
  pub pair : IsPair sys.entries sys.running_threads rs sys.blocked_threads bs
  pub running : (t : ℕ) → t ∈ rs → (sys.threads t).state ≡ thread_running
  pub blocked : (t : ℕ) → t ∈ bs → (sys.threads t).state ≡ thread_blocked

-- After `scheduler_init` no thread runs and none is blocked.
pub scheduler_init-Holds :
    (sys : Sched) → sys.running_threads ≢ sys.blocked_threads → Holds (scheduler_init sys) [] []
unfolding scheduler_init
scheduler_init-Holds sys n =
    let first = list_init sys.running_threads sys.entries in
    record {
      pair = record {
        first =
            IsRing-frame first (list_init sys.blocked_threads first) sys.running_threads []
              (λ a i. list_init-frame sys.blocked_threads first a (ground arith))
              (list_init-IsRing sys.running_threads sys.entries);
        second = list_init-IsRing sys.blocked_threads first;
        apart = λ a i. ground arith;
      };
      running = λ t i. cc;
      blocked = λ t i. cc;
    }

-- With no running thread `schedule` says so and changes nothing.
pub schedule-idle : (sys : Sched) (bs : List ℕ) → Holds sys [] bs → schedule sys ≡ some (false, sys)
unfolding schedule
schedule-idle sys bs h = rw (list_empty-nil sys.entries sys.running_threads h.pair.first)

-- the scheduler after the first running thread `t` was chosen
abbrev pub scheduled : ℕ → Sched → Sched
scheduled t sys = record sys {
  entries = list_add_tail t sys.running_threads (list_remove t sys.entries);
  current = some t;
}

-- `schedule` lets the first running thread run and puts it behind the others.
pub schedule-round_robin :
    (sys : Sched) (t : ℕ) (rs bs : List ℕ)
    → Holds sys (t ∷ rs) bs
    → (schedule sys ≡ some (true, scheduled t sys)) × Holds (scheduled t sys) (rs ++ t ∷ []) bs
unfolding schedule
schedule-round_robin sys t rs bs h =
    let off = remove-IsPair t [] rs bs h.pair in
    (
      rw (
        list_empty-cons sys.entries sys.running_threads t rs h.pair.first,
        list_pop_head-cons sys.entries sys.running_threads t rs h.pair.first,
      ),
      record {
        pair = add_tail-IsPair t rs bs off.1 off.0;
        running = λ a i. h.running a (mem-snoc a t rs i);
        blocked = h.blocked;
      },
    )
