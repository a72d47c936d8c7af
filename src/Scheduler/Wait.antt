-- ===== src/Scheduler/Wait.antt =====
-- `thread_wait` of kernel/process/scheduler.c.
use mjos.Base.{
  ℕ, ◌≡◌, ap, ◌∙◌, ◌≢◌, List, [], ◌∷◌, ◌++◌, true, false, Option, some, arith, mem-insert,
  not_mem-cons, ne_of_mem, eq-cases, inl, inr,
}
use mjos.ListHead.Pair.{IsPair-swap, add-IsPair, remove-IsPair}
use mjos.Scheduler.{Sched, Thread, thread_blocked, WaitType, block_thread, thread_wait, wait_as}
use mjos.Scheduler.Queues.{Holds, scheduled, schedule-round_robin, schedule-idle}

module _ (sys : Sched) (t : ℕ) (type : WaitType) (value : ℕ) where
  pub block_self :
      (((block_thread t type value sys).threads t).state ≡ thread_blocked)
      × (((block_thread t type value sys).threads t).wait_type ≡ type)
      × (((block_thread t type value sys).threads t).wait_value ≡ value)
  unfolding block_thread
  block_self = (ground arith, ground arith, ground arith)

  block-other : (a : ℕ) → a ≢ t → (block_thread t type value sys).threads a ≡ sys.threads a
  unfolding block_thread
  block-other a n = ground arith

  -- what the other threads wait for stays
  pub block-value :
      (a : ℕ)
      → a ≢ t
      → ((block_thread t type value sys).threads a).wait_value ≡ (sys.threads a).wait_value
  block-value a n = ap (λ (u : Thread). u.wait_value) (block-other a n)

  -- The first part of `thread_wait` moves the thread from wherever it stands among the running
  -- ones to the front of the blocked ones, and notes what it waits for.
  pub block_thread-Holds :
      (us vs bs : List ℕ)
      → Holds sys (us ++ t ∷ vs) bs
      → Holds (block_thread t type value sys) (us ++ vs) (t ∷ bs)
  unfolding block_thread
  block_thread-Holds us vs bs h =
      let off = remove-IsPair t us vs bs h.pair in
      let loose = not_mem-cons t sys.running_threads (us ++ vs) off.1.0 in
      record {
        pair = IsPair-swap (add-IsPair t bs (us ++ vs) (off.1.1, off.1.0) (IsPair-swap off.0));
        running = λ a i.
            ap (λ (u : Thread). u.state) (block-other a (ne_of_mem a t (us ++ vs) i loose.1))
            ∙ h.running a (mem-insert a t us vs i);
        blocked = λ a i. elim (eq-cases a t) [
          | inl e ↦ rw e (block_self.0)
          | inr n ↦ ap (λ (u : Thread). u.state) (block-other a n) ∙ h.blocked a (ground arith)
        ];
      }

  -- `thread_wait` blocks the current thread, wherever it stands among the running ones, and lets
  -- the first of the others run.
  pub thread_wait-Holds :
      (us vs bs : List ℕ) (n : ℕ) (rest : List ℕ)
      → Holds sys (us ++ t ∷ vs) bs
      → sys.current ≡ some t
      → us ++ vs ≡ n ∷ rest
      → let sys' = scheduled n (block_thread t type value sys) in
        (thread_wait type value sys ≡ some (true, sys'))
        × Holds sys' (rest ++ n ∷ []) (t ∷ bs)
        × ((sys'.threads t).wait_type ≡ type)
        × ((sys'.threads t).wait_value ≡ value)
  unfolding thread_wait
  thread_wait-Holds us vs bs n rest h c e =
      let held = block_thread-Holds us vs bs h in
      let r = schedule-round_robin (block_thread t type value sys) n rest (t ∷ bs) (rw e at held) in
      (ap (λ (o : Option ℕ). wait_as o type value sys) c ∙ r.0, r.1, block_self.1, block_self.2)

  -- When no other thread runs, `thread_wait` returns to the thread that it has just blocked.
  pub thread_wait-alone :
      (bs : List ℕ)
      → Holds sys (t ∷ []) bs
      → sys.current ≡ some t
      → (thread_wait type value sys ≡ some (false, block_thread t type value sys))
        × ((block_thread t type value sys).current ≡ some t)
        × (((block_thread t type value sys).threads t).state ≡ thread_blocked)
  unfolding thread_wait
  thread_wait-alone bs h c =
      let held = block_thread-Holds [] [] bs h in
      (
        ap (λ (o : Option ℕ). wait_as o type value sys) c
            ∙ schedule-idle (block_thread t type value sys) (t ∷ bs) held,
        c,
        block_self.0,
      )
