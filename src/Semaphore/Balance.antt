-- ===== src/Semaphore/Balance.antt =====
-- A negative semaphore counts the threads that wait for it: `do_passeren` and `do_verhoog` keep that.
use mjos.Base.{
  ℕ, zero, suc, ◌<◌, ◌≡◌, refl, sym, ap, ◌∙◌, List, [], ◌∷◌, ◌++◌, some, arith, length, ◌==◌,
  ==_self, Bool-cases, ◌⊎◌, ◌∈◌, inl, inr, true, false, ne_of_mem, not_mem-cons,
}
use mjos.Base.Int.{ℤ, pos, negsuc, inc, dec}
use mjos.ListHead.Pair.{remove-IsPair}
use mjos.ListHead.Find.{first_match, drop_match}
use mjos.Scheduler.{Sched, wait_mutex, block_thread}
use mjos.Scheduler.Queues.{Holds, scheduled}
use mjos.Scheduler.Wait.{thread_wait-Holds, block-value, block_self}
use mjos.Scheduler.Resume.{waiters}
use mjos.Scheduler.Resume.Loop.{wait_of, thread_resume-one}
use mjos.Semaphore.{SemState, not_positive, do_passeren, do_verhoog}

-- how many threads of a list wait for a value
abbrev pub count : (ℕ → ℕ) → ℕ → List ℕ → ℕ
count waits value xs = length (waiters waits value xs)

-- A counter from 0 on has no thread waiting, and -(n + 1) has n + 1.
abbrev pub IsBalanced : ℤ → ℕ → Type 0
IsBalanced (pos n) k = k ≡ 0
IsBalanced (negsuc n) k = k ≡ suc n

-- What holds of the semaphore at `address` between calls.
pub record Guards (st : SemState) (address : ℕ) (rs bs : List ℕ) : Type 0 where
  pub holds : Holds st.sys rs bs
  pub balance : IsBalanced st.sem (count (wait_of st.sys) address bs)

module _ (w : ℕ → ℕ) (value x : ℕ) (xs : List ℕ) where
  count_hit : (w x == value) ≡ true → count w value (x ∷ xs) ≡ suc (count w value xs)
  count_hit e = rw e refl

  count_miss : (w x == value) ≡ false → count w value (x ∷ xs) ≡ count w value xs
  count_miss e = rw e refl

count-agree :
    (w w' : ℕ → ℕ) (value : ℕ) (xs : List ℕ)
    → ((a : ℕ) → a ∈ xs → w a ≡ w' a)
    → count w value xs ≡ count w' value xs
count-agree w w' value [] same = refl
count-agree w w' value (x ∷ xs) same =
    let rest = count-agree w w' value xs (λ a i. same a (ground (arith, i))) in
    let head = same x (ground arith) in
    elim (Bool-cases (w x == value)) [
      | inl e ↦
          count_hit w value x xs e
          ∙ ap suc rest
          ∙ sym (count_hit w' value x xs (ap (λ k. k == value) (sym head) ∙ e))
      | inr e ↦
          count_miss w value x xs e
          ∙ rest
          ∙ sym (count_miss w' value x xs (ap (λ k. k == value) (sym head) ∙ e))
    ]

-- Taking the first of `n + 1` waiting threads leaves `n`, and there is a first.
count-drop :
    (w : ℕ → ℕ) (value n : ℕ) (xs : List ℕ)
    → count w value xs ≡ suc n
    → (count w value (drop_match (λ a. w a == value) xs) ≡ n)
      × ((t : ℕ) × (first_match (λ a. w a == value) xs ≡ some t) × (w t ≡ value))
count-drop w value n [] e = absurd (omega (arith, e))
count-drop w value n (x ∷ xs) e = elim (Bool-cases (w x == value)) [
  | inl t ↦
      let hit = count_hit w value x xs t in
      let left : count w value xs ≡ n = omega (arith, e, hit) in
      rw t (left, (x, refl, ground (arith, t)))
  | inr t ↦
      let miss = count_miss w value x xs t in
      let (left, found) = count-drop w value n xs (sym miss ∙ e) in
      rw t (count_miss w value x (drop_match (λ a. w a == value) xs) t ∙ left, found)
]

not_positive-low : (i : ℤ) → (i ≡ pos 0) ⊎ ((k : ℕ) × (i ≡ negsuc k)) → not_positive i ≡ true
not_positive-low i (inl e) = ap not_positive e
not_positive-low i (inr (k, e)) = ap not_positive e

dec-IsBalanced :
    (i : ℤ) (k : ℕ)
    → (i ≡ pos 0) ⊎ ((k : ℕ) × (i ≡ negsuc k))
    → IsBalanced i k
    → IsBalanced (dec i) (suc k)
dec-IsBalanced i k (inl e) b = let none_waits : k ≡ 0 = rw e at b in rw e (ap suc none_waits)
dec-IsBalanced i k (inr (j, e)) b = let wait : k ≡ suc j = rw e at b in rw e (ap suc wait)

inc-IsBalanced : (n k : ℕ) → k ≡ n → IsBalanced (inc (negsuc n)) k
inc-IsBalanced zero k e = e
inc-IsBalanced (suc n) k e = e

-- Blocking a running thread adds one to the threads that wait.
count-block :
    (sys : Sched) (t address : ℕ) (us vs bs : List ℕ)
    → Holds sys (us ++ t ∷ vs) bs
    → count (wait_of (block_thread t wait_mutex address sys)) address (t ∷ bs)
      ≡ suc (count (wait_of sys) address bs)
count-block sys t address us vs bs h =
    let w = wait_of (block_thread t wait_mutex address sys) in
    let here : (w t == address) ≡ true =
      rw (block_self sys t wait_mutex address).2 (==_self address) in
    let loose = (remove-IsPair t us vs bs h.pair).1 in
    let away = (not_mem-cons t sys.blocked_threads bs loose.1).1 in
    count_hit w address t bs here
    ∙ ap suc (
        count-agree w (wait_of sys) address bs
          (λ a i. block-value sys t wait_mutex address a (ne_of_mem a t bs i away)))

module _ (st : SemState) (address : ℕ) (bs : List ℕ) where
  -- With the counter above 0 `do_passeren` lowers it and goes on, and no thread waits.
  pub do_passeren-free :
      (n : ℕ) (rs : List ℕ)
      → st.sem ≡ pos (suc n)
      → Guards st address rs bs
      → (do_passeren address st ≡ some (pos (suc n), record st { sem = pos n }))
        × Guards (record st { sem = pos n }) address rs bs
  unfolding do_passeren
  do_passeren-free n rs e g =
      let none_waits = g.balance in
      (rw e refl, record { holds = g.holds; balance = rw e at none_waits })

  -- With the counter at 0 or below, `do_passeren` of the current thread lowers it, blocks the thread
  -- and lets the first of the others run; the counter still counts the threads that wait.
  pub do_passeren-blocks :
      (t : ℕ) (us vs : List ℕ) (next : ℕ) (rest : List ℕ)
      → (st.sem ≡ pos 0) ⊎ ((k : ℕ) × (st.sem ≡ negsuc k))
      → st.sys.current ≡ some t
      → us ++ vs ≡ next ∷ rest
      → Guards st address (us ++ t ∷ vs) bs
      → let st' : SemState = record {
        sem = dec st.sem;
        sys = scheduled next (block_thread t wait_mutex address st.sys);
      } in
        (do_passeren address st ≡ some (st.sem, st'))
        × Guards st' address (rest ++ next ∷ []) (t ∷ bs)
  unfolding do_passeren
  do_passeren-blocks t us vs next rest low c e g =
      let waits = thread_wait-Holds st.sys t wait_mutex address us vs bs next rest g.holds c e in
      (
        rw (not_positive-low st.sem low, waits.0) refl,
        record {
          holds = waits.1;
          balance =
              rw (count-block st.sys t address us vs bs g.holds)
                (dec-IsBalanced st.sem (count (wait_of st.sys) address bs) low g.balance);
        },
      )

  -- With the counter from 0 on `do_verhoog` raises it and wakes no thread.
  pub do_verhoog-free :
      (fuel n : ℕ) (rs : List ℕ)
      → st.sem ≡ pos n
      → Guards st address rs bs
      → (do_verhoog fuel address st ≡ some (pos n, record st { sem = pos (suc n) }))
        × Guards (record st { sem = pos (suc n) }) address rs bs
  unfolding do_verhoog
  do_verhoog-free fuel n rs e g =
      let none_waits = g.balance in
      (rw e refl, record { holds = g.holds; balance = rw e at none_waits })

  -- With the counter below 0 `do_verhoog` raises it and wakes one thread, the first of the
  -- blocked ones whose wait value is the semaphore's address, whatever type of thing that thread waits
  -- for; there is one, and it runs next. The counter still counts the blocked threads with that
  -- wait value, and more rounds than there are blocked threads are enough.
  pub do_verhoog-wakes :
      (fuel n : ℕ) (rs : List ℕ)
      → st.sem ≡ negsuc n
      → length bs < fuel
      → Guards st address rs bs
      → (st' : SemState) × (t : ℕ) × (do_verhoog fuel address st ≡ some (negsuc n, st'))
        × (first_match (λ a. wait_of st.sys a == address) bs ≡ some t)
        × (wait_of st.sys t ≡ address)
        × Guards st' address (t ∷ rs) (drop_match (λ a. wait_of st.sys a == address) bs)
  unfolding do_verhoog
  do_verhoog-wakes fuel n rs e f g =
      let r = thread_resume-one st.sys wait_mutex address fuel rs bs g.holds f (inl refl) in
      let waiting = g.balance in
      let (left, (t, found, value)) = count-drop (wait_of st.sys) address n bs (rw e at waiting) in
      let woken = drop_match (λ a. wait_of st.sys a == address) bs in
      let held = r.holds in
      (
        record { sem = inc (negsuc n); sys = r.after },
        t,
        rw (e, r.returns) refl,
        found,
        value,
        record {
          holds = rw found at held;
          balance = inc-IsBalanced n (count (wait_of r.after) address woken) (
              count-agree (wait_of r.after) (wait_of st.sys) address woken (λ a i. r.values a)
              ∙ left);
        },
      )
