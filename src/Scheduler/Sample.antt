-- ===== src/Scheduler/Sample.antt =====
-- A scheduler with threads 10 and 11 running, 11 the current one, and 12 blocked.
use mjos.Base.{ℕ, refl, [], ◌∷◌, some, arith, ◌==◌, if◌then◌else◌}
use mjos.ListHead.{ListEntry, Entries}
use mjos.Scheduler.{Thread, Sched, thread_running, thread_blocked, running, wait_mutex}
use mjos.Scheduler.Queues.{Holds}

abbrev entry : ℕ → ℕ → ListEntry
entry p n = record { prev = p; next = n }

-- the heads are at 1 and 2
abbrev entries : Entries
entries a =
    if a == 1
    then entry 11 10
    else if a == 10
    then entry 1 11
    else if a == 11
    then entry 10 1
    else if a == 2
    then entry 12 12
    else if a == 12
    then entry 2 2
    else entry a a

abbrev threads : ℕ → Thread
threads a =
    if a == 12
    then record { state = thread_blocked; wait_type = wait_mutex; wait_value = 7 }
    else record { state = thread_running; wait_type = running; wait_value = 0 }

abbrev pub system : Sched
system = record {
  entries = entries;
  threads = threads;
  running_threads = 1;
  blocked_threads = 2;
  current = some 11;
}

pub system-Holds : Holds system (10 ∷ 11 ∷ []) (12 ∷ [])
system-Holds = record {
  pair = record {
    first = record {
      forward = (refl, (refl, (refl, tt)));
      backward = (refl, (refl, (refl, tt)));
      distinct = (refl, (refl, (refl, tt)));
    };
    second = record {
      forward = (refl, (refl, tt));
      backward = (refl, (refl, tt));
      distinct = (refl, (refl, tt));
    };
    apart = ground arith;
  };
  running = ground arith;
  blocked = ground arith;
}
