-- ===== src/Scheduler/Tests.antt =====
-- The theorems on the scheduler with three threads: 10 and 11 run, 12 is blocked.
use mjos.Base.{◌≡◌, refl, [], ◌∷◌, some, none, true, arith, inl}
use mjos.Scheduler.{wait_pid, wait_mutex, schedule, thread_wait, thread_resume}
use mjos.Scheduler.Queues.{Holds, scheduled, schedule-round_robin}
use mjos.Scheduler.Sample.{system, system-Holds}
use mjos.Scheduler.Resume.{Resumed}
use mjos.Scheduler.Resume.Loop.{wait_of, thread_resume-all, thread_resume-one}

schedule-round_robin_example :
    (schedule system ≡ some (true, scheduled 10 system))
    × Holds (scheduled 10 system) (11 ∷ 10 ∷ []) (12 ∷ [])
schedule-round_robin_example = schedule-round_robin system 10 (11 ∷ []) (12 ∷ []) system-Holds

-- Thread 12 waits for the mutex at 7.
thread_resume-one_example :
    Resumed (wait_of system) (thread_resume 2 wait_mutex 7 system) (12 ∷ 10 ∷ 11 ∷ []) []
thread_resume-one_example =
    thread_resume-one system wait_mutex 7 2 (10 ∷ 11 ∷ []) (12 ∷ []) system-Holds (omega arith)
      (inl refl)

-- It is woken by the end of process 7 too.
thread_resume-all_example :
    Resumed (wait_of system) (thread_resume 2 wait_pid 7 system) (12 ∷ 10 ∷ 11 ∷ []) []
thread_resume-all_example =
    thread_resume-all system wait_pid 7 2 (10 ∷ 11 ∷ []) (12 ∷ []) system-Holds (omega arith)
      (inl refl)

wait_runs : thread_wait wait_mutex 9 (record system { current = none }) ≡ none
unfolding thread_wait
wait_runs = refl
