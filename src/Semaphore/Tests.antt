-- ===== src/Semaphore/Tests.antt =====
-- The theorems about semaphores at the sample scheduler, where thread 12 waits for the mutex at 7.
use mjos.Base.{ℕ, ◌≡◌, refl, inr, [], ◌∷◌, some, arith, ◌==◌}
use mjos.Base.Int.{pos, negsuc}
use mjos.ListHead.Find.{first_match, drop_match}
use mjos.Scheduler.{block_thread, wait_mutex}
use mjos.Scheduler.Queues.{scheduled}
use mjos.Scheduler.Sample.{system, system-Holds}
use mjos.Scheduler.Resume.Loop.{wait_of}
use mjos.Semaphore.{SemState, do_passeren, do_verhoog}
use mjos.Semaphore.Balance.{Guards, do_passeren-blocks, do_verhoog-wakes}

-- one unit left of the semaphore at 9, and no thread waits for it
abbrev free : SemState
free = record { sem = pos 1; sys = system }

-- one thread waits for the semaphore at 7
abbrev taken : SemState
taken = record { sem = negsuc 0; sys = system }

free-Guards : Guards free 9 (10 ∷ 11 ∷ []) (12 ∷ [])
free-Guards = record { holds = system-Holds; balance = refl }

taken-Guards : Guards taken 7 (10 ∷ 11 ∷ []) (12 ∷ [])
taken-Guards = record { holds = system-Holds; balance = refl }

do_passeren-blocks_example :
    let st' : SemState = record {
      sem = negsuc 1;
      sys = scheduled 10 (block_thread 11 wait_mutex 7 system);
    } in
    (do_passeren 7 taken ≡ some (negsuc 0, st')) × Guards st' 7 (10 ∷ []) (11 ∷ 12 ∷ [])
do_passeren-blocks_example =
    do_passeren-blocks taken 7 (12 ∷ []) 11 (10 ∷ []) [] 10 [] (inr (0, refl)) refl refl
      taken-Guards

do_verhoog-wakes_example :
    (st' : SemState) × (t : ℕ) × (do_verhoog 2 7 taken ≡ some (negsuc 0, st'))
    × (first_match (λ a. wait_of system a == 7) (12 ∷ []) ≡ some t)
    × (wait_of system t ≡ 7)
    × Guards st' 7 (t ∷ 10 ∷ 11 ∷ []) (drop_match (λ a. wait_of system a == 7) (12 ∷ []))
do_verhoog-wakes_example =
    do_verhoog-wakes taken 7 (12 ∷ []) 2 0 (10 ∷ 11 ∷ []) refl (omega arith) taken-Guards
