-- ===== src/Spin/Exclusion.antt =====
-- The ticket lock under every interleaving of its threads: the queue is kept, at most one thread
-- holds the lock, and the lock is never free while no waiting thread can enter.
use mjos.Base.{
  ℕ, ◌+◌, ◌%◌, ◌^◌, ◌<◌, ◌≤◌, ◌≡◌, refl, sym, ap, ◌∙◌, ◌≢◌, ◌⊎◌, inl, inr, List, [], ◌∷◌, ◌++◌,
  arith, length, length-append, ◌∉◌, Distinct-length, eq-cases, Bool-cases, has, middle-Distinct,
  append-nil, not_mem-cons, mem-snoc, not_mem-append,
}
use mjos.Spin.{
  idle, holding, waiting, System, move, atomic32_inc, take, enter, leave, draw_ticket,
  raw_spin_give, is_served, Step, takes, relaxes, enters, leaves, start, Reach, starts, later,
}
use mjos.Spin.Queue.{
  IsQueue, move_self, move-ne, Line-ticket, Line-mod, Line-move, Front-move, Front-snoc, Front-busy,
  Line-Front,
}

module _ (n : ℕ) (few : n ≤ 2 ^ 32) where
  -- There are no more tickets out than threads.
  short : (s : System) (q : List ℕ) → IsQueue n s q → length q ≤ 2 ^ 32
  short s q h = let most = Distinct-length n q h.distinct h.known in omega arith

  take-IsQueue :
      (s : System) (t : ℕ) (q : List ℕ)
      → t < n
      → s.phase t ≡ idle
      → IsQueue n s q
      → IsQueue n (take t s) (q ++ t ∷ [])
  unfolding take draw_ticket atomic32_inc
  take-IsQueue s t q small e h =
      let out : t ∉ q = elim (Bool-cases (has t q)) [
        | inl i ↦ absurd (Front-busy s.phase t s.lock.svc q h.front i e)
        | inr o ↦ o
      ] in
      let ticket = waiting s.lock.tkt in
      record {
        svc = h.svc;
        tkt = let long = length-append q (t ∷ []) in let old = h.tkt in omega arith;
        front =
            Front-snoc (move s.phase t ticket) t s.lock.svc q
              (Front-move s.phase t ticket s.lock.svc q out h.front)
              (move_self s.phase t ticket ∙ ap waiting h.tkt);
        others = λ a o.
            let apart = not_mem-append a q (t ∷ []) o in
            move-ne s.phase t a ticket (not_mem-cons a t [] apart.1).0 ∙ h.others a apart.0;
        distinct = middle-Distinct t q [] (rw append-nil h.distinct) (rw append-nil out);
        known = λ a i. elim (eq-cases a t) [
          | inl same ↦ rw same small
          | inr other ↦ h.known a (ground (arith, mem-snoc a t q i, other))
        ];
      }

  -- A thread in the queue that is not the first waits, and not with the ticket served.
  behind :
      (s : System) (t x : ℕ) (q : List ℕ)
      → (s.phase t ≡ waiting s.lock.svc) ⊎ (s.phase t ≡ holding)
      → IsQueue n s (x ∷ q)
      → t ∉ q
  behind s t x q busy h = elim (Bool-cases (has t q)) [
    | inr out ↦ out
    | inl i ↦
        let most = short s (x ∷ q) h in
        let (j, small, ticket) = Line-ticket s.phase t (s.lock.svc + 1) q h.front.1 i in
        let bound = h.svc in
        elim busy [
          | inl e ↦
              let same : s.lock.svc ≡ (s.lock.svc + 1 + j) % 2 ^ 32 = cc (e, ticket) in
              absurd (omega arith)
          | inr e ↦ cc (e, ticket)
        ]
  ]

  -- Only the first thread of the queue holds the lock or has the ticket served.
  first :
      (s : System) (t x : ℕ) (q : List ℕ)
      → (s.phase t ≡ waiting s.lock.svc) ⊎ (s.phase t ≡ holding)
      → IsQueue n s (x ∷ q)
      → t ≡ x
  first s t x q busy h = elim (eq-cases t x) [
    | inl same ↦ same
    | inr other ↦
        let out = behind s t x q busy h in
        let e = h.others t (ground (arith, other, out)) in
        elim busy [ inl w ↦ cc (w, e) | inr w ↦ cc (w, e) ]
  ]

  enter-IsQueue :
      (s : System) (t : ℕ) (q : List ℕ)
      → s.phase t ≡ waiting s.lock.svc
      → IsQueue n s q
      → IsQueue n (enter t s) q
  unfolding enter
  enter-IsQueue s t [] e h = let w = h.others t refl in cc (w, e)
  enter-IsQueue s t (x ∷ q) e h =
      let same = first s t x q (inl e) h in
      let out = behind s t x q (inl e) h in
      record {
        svc = h.svc;
        tkt = h.tkt;
        front = (
          inr (ap (move s.phase t holding) (sym same) ∙ move_self s.phase t holding),
          Line-move s.phase t holding (s.lock.svc + 1) q out h.front.1,
        );
        others = λ a o.
            let apart = not_mem-cons a x q o in
            move-ne s.phase t a holding (λ k. apart.0 (k ∙ same)) ∙ h.others a o;
        distinct = h.distinct;
        known = h.known;
      }

  leave-IsQueue :
      (s : System) (t x : ℕ) (q : List ℕ)
      → s.phase t ≡ holding
      → IsQueue n s (x ∷ q)
      → IsQueue n (leave t s) q
  unfolding leave raw_spin_give atomic32_inc
  leave-IsQueue s t x q e h =
      let same = first s t x q (inr e) h in
      let out = behind s t x q (inr e) h in
      record {
        svc = omega arith;
        tkt = let old = h.tkt in omega arith;
        front = Line-Front (move s.phase t idle) ((s.lock.svc + 1) % 2 ^ 32) q (
            Line-mod (move s.phase t idle) (s.lock.svc + 1) ((s.lock.svc + 1) % 2 ^ 32) q
              (omega arith) (Line-move s.phase t idle (s.lock.svc + 1) q out h.front.1));
        others = λ a o. elim (eq-cases a t) [
          | inl k ↦ ap (move s.phase t idle) k ∙ move_self s.phase t idle
          | inr k ↦
              let differ : a ≢ x = λ e'. k (e' ∙ sym same) in
              move-ne s.phase t a idle k ∙ h.others a (ground (arith, differ, o))
        ];
        distinct = h.distinct.1;
        known = λ a i. h.known a (ground (arith, i));
      }

  -- What a step does to the queue.
  Step-IsQueue :
      (s s' : System) (q : List ℕ) → Step n s s' → IsQueue n s q → (q' : List ℕ) × IsQueue n s' q'
  unfolding is_served
  Step-IsQueue s s' q (takes t small e) h = (q ++ t ∷ [], take-IsQueue s t q small e h)
  Step-IsQueue s s' q (relaxes t k e wait) h = (q, h)
  Step-IsQueue s s' q (enters t k e ready) h =
      let served : s.lock.svc ≡ k = ground (arith, ready) in
      (q, enter-IsQueue s t q (e ∙ ap waiting (sym served)) h)
  Step-IsQueue s s' [] (leaves t e) h = let w = h.others t refl in cc (w, e)
  Step-IsQueue s s' (x ∷ q) (leaves t e) h = (q, leave-IsQueue s t x q e h)

  start-IsQueue : IsQueue n start []
  start-IsQueue = record {
    svc = omega arith;
    tkt = refl;
    front = tt;
    others = λ a o. refl;
    distinct = tt;
    known = λ a i. absurd (ground (arith, i));
  }

  Reach-IsQueue : (s : System) → Reach n s → (q : List ℕ) × IsQueue n s q
  Reach-IsQueue s starts = ([], start-IsQueue)
  Reach-IsQueue s (later {s = r} before step) =
      let (q, h) = Reach-IsQueue r before in Step-IsQueue r s q step h

  holder-first :
      (s : System) (a b : ℕ) (q : List ℕ)
      → IsQueue n s q
      → s.phase a ≡ holding
      → s.phase b ≡ holding
      → a ≡ b
  holder-first s a b [] h e k = let w = h.others a refl in cc (w, e)
  holder-first s a b (x ∷ q) h e k = first s a x q (inr e) h ∙ sym (first s b x q (inr k) h)

  -- Mutual exclusion: however the steps of up to 2 ^ 32 threads interleave, with the counters of the
  -- lock wrapping around, two threads between `raw_spin_take` and `raw_spin_give` are the same.
  pub take-exclusive :
      (s : System) (a b : ℕ) → Reach n s → s.phase a ≡ holding → s.phase b ≡ holding → a ≡ b
  take-exclusive s a b r e k = let (q, h) = Reach-IsQueue s r in holder-first s a b q h e k

  front-moves :
      (s : System) (t k : ℕ) (q : List ℕ)
      → IsQueue n s q
      → s.phase t ≡ waiting k
      → (x : ℕ) × ((s.phase x ≡ holding) ⊎ (s.phase x ≡ waiting s.lock.svc))
  front-moves s t k [] h e = let w = h.others t refl in cc (w, e)
  front-moves s t k (x ∷ q) h e =
      let small : s.lock.svc % 2 ^ 32 ≡ s.lock.svc = let bound = h.svc in omega arith in
      (x, elim (h.front.0) [ inl w ↦ inr (w ∙ ap waiting small) | inr w ↦ inl w ])

  -- No deadlock: where a thread waits, some thread holds the lock or has the ticket being served.
  pub take-progress :
      (s : System) (t k : ℕ)
      → Reach n s
      → s.phase t ≡ waiting k
      → (x : ℕ) × ((s.phase x ≡ holding) ⊎ (s.phase x ≡ waiting s.lock.svc))
  take-progress s t k r e = let (q, h) = Reach-IsQueue s r in front-moves s t k q h e
