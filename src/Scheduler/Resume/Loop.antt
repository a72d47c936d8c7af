-- ===== src/Scheduler/Resume/Loop.antt =====
-- The loop of `thread_resume` over all the blocked threads.
use mathlib.Core.List.{reverse_aux}
use mjos.Base.{
  ℕ, zero, suc, ◌<◌, ◌≡◌, refl, sym, ◌∙◌, ◌≢◌, List, [], ◌∷◌, ◌++◌, append_assoc, Option, some,
  none, arith, length, ◌==◌, Bool-cases, not_mem-append, not_mem-cons, ◌⊎◌, inl, inr,
}
use mjos.Chain.{first_or, Forward-append}
use mjos.ListHead.Ring.{nexts}
use mjos.ListHead.Find.{first_match, drop_match}
use mjos.Scheduler.{
  Sched, WaitType, wait_pid, wait_dma, wait_file, wait_mutex, resume, resume_from, thread_resume,
}
use mjos.Scheduler.Queues.{Holds}
use mjos.Scheduler.Resume.{
  resume-value, resume-Holds, waiters, others, Resumed, turn-all, turn-one, turn-end, verdict-all,
  verdict-one,
}

-- the woken thread, if there is one, before the others
abbrev pub front : Option ℕ → List ℕ → List ℕ
front none rs = rs
front (some t) rs = t ∷ rs

Resumed-of :
    {waits : ℕ → ℕ} {r r' : Option Sched} {rs bs : List ℕ}
    → r ≡ r'
    → Resumed waits r' rs bs
    → Resumed waits r rs bs
Resumed-of e m = record {
  after = m.after;
  returns = e ∙ m.returns;
  holds = m.holds;
  values = m.values;
}

-- The entry that the loop is at is not the head, and its `next` is the entry behind.
at_entry :
    (sys : Sched) (rs kept : List ℕ) (x : ℕ) (xs : List ℕ)
    → Holds sys rs (kept ++ x ∷ xs)
    → (x ≢ sys.blocked_threads) × ((sys.entries x).next ≡ first_or xs sys.blocked_threads)
at_entry sys rs kept x xs h =
    let r = h.pair.second in
    let out = not_mem-append sys.blocked_threads kept (x ∷ xs) r.distinct.0 in
    (
      λ e. (not_mem-cons sys.blocked_threads x xs out.1).0 (sym e),
      (Forward-append (nexts sys.entries) (sys.blocked_threads ∷ kept) (x ∷ xs) sys.blocked_threads
          r.forward).1.0,
    )

module _ (waits : ℕ → ℕ) (type : WaitType) (value : ℕ) where
  module _ (all : (type ≡ wait_pid) ⊎ (type ≡ wait_dma)) where
    resume_from-all :
        (fuel : ℕ) (sys : Sched) (rs kept xs : List ℕ)
        → length xs < fuel
        → Holds sys rs (kept ++ xs)
        → ((a : ℕ) → (sys.threads a).wait_value ≡ waits a)
        → Resumed waits
            (resume_from fuel (first_or xs sys.blocked_threads) type value sys)
            (reverse_aux (waiters waits value xs) rs)
            (kept ++ others waits value xs)
    unfolding resume
    resume_from-all zero sys rs kept xs f h w = absurd (omega arith)
    resume_from-all (suc fuel) sys rs kept [] f h w = record {
      after = sys;
      returns = turn-end fuel sys.blocked_threads type value sys refl;
      holds = h;
      values = w;
    }
    resume_from-all (suc fuel) sys rs kept (x ∷ xs) f h w =
        let here = at_entry sys rs kept x xs h in
        let turn = turn-all fuel x type value sys here.0 (verdict-all type all) in
        elim (Bool-cases (waits x == value)) [
          | inl t ↦
              let next =
                resume_from-all fuel (resume x sys) (x ∷ rs) kept xs (omega arith)
                  (resume-Holds sys x rs kept xs h) (λ a. resume-value sys x a ∙ w a) in
              rw t (Resumed-of (turn ∙ (rw (w x, t, here.1) refl)) next)
          | inr t ↦
              let next =
                resume_from-all fuel sys rs (kept ++ x ∷ []) xs (omega arith) (rw append_assoc h)
                  w in
              rw t (Resumed-of (turn ∙ (rw (w x, t, here.1) refl)) (rw append_assoc at next))
        ]

  module _ (one : (type ≡ wait_mutex) ⊎ (type ≡ wait_file)) where
    resume_from-one :
        (fuel : ℕ) (sys : Sched) (rs kept xs : List ℕ)
        → length xs < fuel
        → Holds sys rs (kept ++ xs)
        → ((a : ℕ) → (sys.threads a).wait_value ≡ waits a)
        → Resumed waits
            (resume_from fuel (first_or xs sys.blocked_threads) type value sys)
            (front (first_match (λ a. waits a == value) xs) rs)
            (kept ++ drop_match (λ a. waits a == value) xs)
    resume_from-one zero sys rs kept xs f h w = absurd (omega arith)
    resume_from-one (suc fuel) sys rs kept [] f h w = record {
      after = sys;
      returns = turn-end fuel sys.blocked_threads type value sys refl;
      holds = h;
      values = w;
    }
    resume_from-one (suc fuel) sys rs kept (x ∷ xs) f h w =
        let here = at_entry sys rs kept x xs h in
        let turn = turn-one fuel x type value sys here.0 (verdict-one type one) in
        elim (Bool-cases (waits x == value)) [
          | inl t ↦ rw t (record {
            after = resume x sys;
            returns = turn ∙ (rw (w x, t) refl);
            holds = resume-Holds sys x rs kept xs h;
            values = λ a. resume-value sys x a ∙ w a;
          })
          | inr t ↦
              let next =
                resume_from-one fuel sys rs (kept ++ x ∷ []) xs (omega arith) (rw append_assoc h)
                  w in
              rw t (Resumed-of (turn ∙ (rw (w x, t, here.1) refl)) (rw append_assoc at next))
        ]

-- what each thread waits for, as far as `thread_resume` compares it
abbrev pub wait_of : Sched → ℕ → ℕ
wait_of sys a = (sys.threads a).wait_value

module _ (sys : Sched) (type : WaitType) (value fuel : ℕ) (rs bs : List ℕ) (h : Holds sys rs bs)
    (f : length bs < fuel) where
  -- `thread_resume` for the end of a process or of a DMA transfer wakes every blocked thread
  -- whose value is the one given, whatever the thread waits for: the last of them in the list
  -- runs first, before the threads that ran already, and the others stay blocked in their order.
  -- No thread's value changes. More rounds than there are blocked threads are enough.
  pub thread_resume-all :
      (type ≡ wait_pid) ⊎ (type ≡ wait_dma)
      → Resumed
          (wait_of sys)
          (thread_resume fuel type value sys)
          (reverse_aux (waiters (wait_of sys) value bs) rs)
          (others (wait_of sys) value bs)
  unfolding thread_resume
  thread_resume-all all =
      rw (h.pair.second.forward.0)
        (resume_from-all (wait_of sys) type value all fuel sys rs [] bs f h (λ a. refl))

  -- `thread_resume` for a mutex or a file wakes the first blocked thread whose value is the one
  -- given, whatever the thread waits for, and no other; where there is none the lists stay as they
  -- are. No thread's value changes. More rounds than there are blocked threads are enough.
  pub thread_resume-one :
      (type ≡ wait_mutex) ⊎ (type ≡ wait_file)
      → Resumed
          (wait_of sys)
          (thread_resume fuel type value sys)
          (front (first_match (λ a. wait_of sys a == value) bs) rs)
          (drop_match (λ a. wait_of sys a == value) bs)
  unfolding thread_resume
  thread_resume-one one =
      rw (h.pair.second.forward.0)
        (resume_from-one (wait_of sys) type value one fuel sys rs [] bs f h (λ a. refl))
