-- ===== src/Scheduler/Resume.antt =====
-- `thread_resume` of kernel/process/scheduler.c: one thread, and one turn of the loop.
pub mod Loop
use mathlib.Core.List.{reverse_aux}
use mjos.Base.{
  ℕ, zero, suc, ◌<◌, ◌≡◌, refl, sym, ap, ◌∙◌, ◌≢◌, List, [], ◌∷◌, ◌++◌, append-nil, append_assoc,
  Bool, true, false, Option, some, none, arith, length, ◌==◌, ==_ne, if◌then◌else◌, Bool-cases, ◌∈◌,
  ◌∉◌, mem-insert, mem-middle, not_mem-append, not_mem-cons, ne_of_mem, eq-cases, ◌⊎◌, inl, inr,
}
use mjos.Chain.{first_or, Forward-append}
use mjos.ListHead.Ring.{nexts}
use mjos.ListHead.Pair.{IsPair-swap, add-IsPair, remove-IsPair}
use mjos.Scheduler.{
  Sched, Thread, thread_running, thread_blocked, WaitType, wait_pid, wait_dma, wait_file,
  wait_mutex, running, resume, verdict, wake_on, wake_stop, pass, resume_from, thread_resume,
}
use mjos.Scheduler.Queues.{Holds}

module _ (sys : Sched) (t : ℕ) where
  resume_self :
      (((resume t sys).threads t).state ≡ thread_running)
      × (((resume t sys).threads t).wait_type ≡ running)
  unfolding resume
  resume_self = (ground arith, ground arith)

  resume-other : (a : ℕ) → a ≢ t → (resume t sys).threads a ≡ sys.threads a
  unfolding resume
  resume-other a n = ground arith

  resume-value : (a : ℕ) → ((resume t sys).threads a).wait_value ≡ (sys.threads a).wait_value
  unfolding resume
  resume-value a = ground arith

  -- `resume` moves a blocked thread, wherever it stands, to the front of the running ones.
  pub resume-Holds :
      (rs us vs : List ℕ) → Holds sys rs (us ++ t ∷ vs) → Holds (resume t sys) (t ∷ rs) (us ++ vs)
  unfolding resume
  resume-Holds rs us vs h =
      let off = remove-IsPair t us vs rs (IsPair-swap h.pair) in
      let loose = not_mem-cons t sys.blocked_threads (us ++ vs) off.1.0 in
      record {
        pair = add-IsPair t rs (us ++ vs) (off.1.1, off.1.0) (IsPair-swap off.0);
        running = λ a i. elim (eq-cases a t) [
          | inl e ↦ rw e (resume_self.0)
          | inr n ↦ ap (λ (u : Thread). u.state) (resume-other a n) ∙ h.running a (ground arith)
        ];
        blocked = λ a i.
            ap (λ (u : Thread). u.state) (resume-other a (ne_of_mem a t (us ++ vs) i loose.1))
            ∙ h.blocked a (mem-insert a t us vs i);
      }

-- The threads among `xs` that wait for the value, and the others.
module _ (waits : ℕ → ℕ) (value : ℕ) where
  abbrev pub waiters : List ℕ → List ℕ
  waiters [] = []
  waiters (x ∷ xs) = let rest = waiters xs in if waits x == value then x ∷ rest else rest

  abbrev pub others : List ℕ → List ℕ
  others [] = []
  others (x ∷ xs) = let rest = others xs in if waits x == value then rest else x ∷ rest

-- what `thread_resume` leaves: a state of the scheduler with these threads running and blocked, and
-- these values that the threads wait for
pub record Resumed (waits : ℕ → ℕ) (result : Option Sched) (rs bs : List ℕ) : Type 0 where
  pub after : Sched
  pub returns : result ≡ some after
  pub holds : Holds after rs bs
  pub values : (a : ℕ) → (after.threads a).wait_value ≡ waits a

-- Which branch of the loop an entry takes.
module _ (fuel c : ℕ) (type : WaitType) (value : ℕ) (sys : Sched)
    (ne : c ≢ sys.blocked_threads) where
  turn-all :
      ((w : Bool) → verdict type w ≡ (if w then wake_on else pass))
      → resume_from (suc fuel) c type value sys ≡ (
          if (sys.threads c).wait_value == value
          then resume_from fuel (sys.entries c).next type value (resume c sys)
          else resume_from fuel (sys.entries c).next type value sys)
  unfolding resume_from
  turn-all v =
      rw (==_ne c sys.blocked_threads ne, v ((sys.threads c).wait_value == value)) (ground arith)

  turn-one :
      ((w : Bool) → verdict type w ≡ (if w then wake_stop else pass))
      → resume_from (suc fuel) c type value sys ≡ (
          if (sys.threads c).wait_value == value
          then some (resume c sys)
          else resume_from fuel (sys.entries c).next type value sys)
  unfolding resume_from
  turn-one v =
      rw (==_ne c sys.blocked_threads ne, v ((sys.threads c).wait_value == value)) (ground arith)

turn-end :
    (fuel c : ℕ) (type : WaitType) (value : ℕ) (sys : Sched)
    → c ≡ sys.blocked_threads
    → resume_from (suc fuel) c type value sys ≡ some sys
unfolding resume_from
turn-end fuel c type value sys e = ground arith

verdict-all :
    (type : WaitType)
    → (type ≡ wait_pid) ⊎ (type ≡ wait_dma)
    → (w : Bool) → verdict type w ≡ (if w then wake_on else pass)
unfolding verdict
verdict-all type k w = ground arith

verdict-one :
    (type : WaitType)
    → (type ≡ wait_mutex) ⊎ (type ≡ wait_file)
    → (w : Bool) → verdict type w ≡ (if w then wake_stop else pass)
unfolding verdict
verdict-one type k w = ground arith
