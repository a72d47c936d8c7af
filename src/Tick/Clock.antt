-- ===== src/Tick/Clock.antt =====
-- The clock of kernel/misc/tick.c as the kernel runs it: the queue of watch dogs has the NULL links that it
-- starts with, since nothing sets it up and nothing starts a watch dog.
use mjos.Base.{
  ℕ, zero, suc, ◌+◌, ◌-◌, ◌%◌, ◌^◌, ◌<◌, ◌≤◌, ◌≡◌, refl, ap, ◌∙◌, ◌==◌, ltb, if◌then◌else◌, true,
  false, Bool-cases, inl, inr, Option, none, some, List, [], ◌∷◌, arith,
}
use mjos.Base.Int.{pos}
use mjos.Tick.{TickQueue, tick_proc, expire, count_tick, tick_get, wait_until, tick_delay}

-- how many of the interrupts are those of processor 0
unfoldable pub clock_ticks : List ℕ → ℕ
clock_ticks [] = 0
clock_ticks (c ∷ cs) = if c == 0 then suc (clock_ticks cs) else clock_ticks cs

abbrev later : TickQueue → ℕ → TickQueue
later q n = record q { tick_count = (q.tick_count + n) % 2 ^ 64 }

module _ {ℓ} {World : Type ℓ}
    (call : ℕ → ℕ → ℕ → ℕ → ℕ → World × TickQueue → World × TickQueue) where
  abbrev and_then :
      (World → TickQueue → Option (World × TickQueue))
      → Option (World × TickQueue)
      → Option (World × TickQueue)
  and_then f none = none
  and_then f (some (w, q)) = f w q

  -- Interrupts of the clock on the processors of a list, one after the other.
  unfoldable pub interrupts : ℕ → List ℕ → World → TickQueue → Option (World × TickQueue)
  interrupts fuel [] w q = some (w, q)
  interrupts fuel (c ∷ cs) w q = and_then (interrupts fuel cs) (tick_proc call fuel c w q)

  tick_proc_on_0 :
      (fuel : ℕ) (w : World) (q : TickQueue)
      → (q.entries q.head).next ≡ 0
      → tick_proc call (suc fuel) 0 w q ≡ some (w, later q 1)
  unfolding tick_proc expire count_tick
  tick_proc_on_0 fuel w q e = rw e refl

  tick_proc_elsewhere :
      (fuel c : ℕ) (w : World) (q : TickQueue)
      → (c == 0) ≡ false
      → tick_proc call fuel c w q ≡ some (w, q)
  unfolding tick_proc
  tick_proc_elsewhere fuel c w q e = rw e refl

  -- While the queue has the NULL links that it starts with, and however the interrupts of the clock
  -- fall on the processors: every one of them returns, in one round of its loop, no watch dog is
  -- run and no other memory changed, and the count has risen by the number of those on processor 0,
  -- modulo 2 ^ 64.
  pub interrupts-count :
      (fuel : ℕ) (cs : List ℕ) (w : World) (q : TickQueue)
      → (q.entries q.head).next ≡ 0
      → tick_get q < 2 ^ 64
      → interrupts (suc fuel) cs w q
        ≡ some (w, record q { tick_count = (tick_get q + clock_ticks cs) % 2 ^ 64 })
  unfolding interrupts clock_ticks
  interrupts-count fuel [] w q e lim =
      let same : q.tick_count ≡ (q.tick_count + 0) % 2 ^ 64 = omega arith in
      ap (λ n. some (w, record q { tick_count = n })) same
  interrupts-count fuel (c ∷ cs) w q e lim = elim (Bool-cases (c == 0)) [
    | inl t ↦
        let zero_c : c ≡ 0 = ground (arith, t) in
        let sum : ((q.tick_count + 1) % 2 ^ 64 + clock_ticks cs) % 2 ^ 64
            ≡ (q.tick_count + suc (clock_ticks cs)) % 2 ^ 64 =
          omega arith in
        rw t (
          ap (λ k. and_then (interrupts (suc fuel) cs) (tick_proc call (suc fuel) k w q)) zero_c
          ∙ ap (and_then (interrupts (suc fuel) cs)) (tick_proc_on_0 fuel w q e)
          ∙ interrupts-count fuel cs w (later q 1) e (omega arith)
          ∙ ap (λ n. some (w, record q { tick_count = n })) sum)
    | inr t ↦ rw t (
        ap (and_then (interrupts (suc fuel) cs)) (tick_proc_elsewhere (suc fuel) c w q t)
        ∙ interrupts-count fuel cs w q e lim)
  ]

-- the count `n` ticks after it was `start`
abbrev pub count_after : ℕ → ℕ → ℕ
count_after start n = (start + n) % 2 ^ 64

wait-first :
    (fuel start ticks k more : ℕ) (elapsed : ℕ → ℕ)
    → start < 2 ^ 64
    → more < fuel
    → ((j : ℕ) → k ≤ j → j < k + more → elapsed j < ticks)
    → ticks ≤ elapsed (k + more)
    → ((j : ℕ) → j ≤ k + more → elapsed j < 2 ^ 64)
    → wait_until fuel (λ j. count_after start (elapsed j)) start ticks k ≡ some (k + more)
unfolding wait_until
wait-first zero start ticks k more elapsed s f before at lim = absurd (omega arith)
wait-first (suc fuel) start ticks k zero elapsed s f before at lim =
    let here : k + 0 ≡ k = omega arith in
    let there : k ≡ k + 0 = omega arith in
    let reached : ticks ≤ elapsed k = rw here at at in
    let bound = lim k (omega arith) in
    let stop : ltb ((count_after start (elapsed k) + 2 ^ 64 - start) % 2 ^ 64) ticks ≡ false =
      ground arith in
    rw stop (ap some there)
wait-first (suc fuel) start ticks k (suc more) elapsed s f before at lim =
    let same : k + 1 + more ≡ k + suc more = omega arith in
    let bound = lim k (omega arith) in
    let early = before k (omega arith) (omega arith) in
    let go : ltb ((count_after start (elapsed k) + 2 ^ 64 - start) % 2 ^ 64) ticks ≡ true =
      ground arith in
    rw go (
      wait-first fuel start ticks (k + 1) more elapsed s (omega arith)
        (λ j l h. before j (omega arith) (omega arith)) (rw same at) (λ j h. lim j (omega arith))
      ∙ ap some same)

-- For a number of ticks from 0 on and a count that has moved by less than 2 ^ 64 at each of its reads:
-- `tick_delay` returns, at the first read behind the one that it starts with at which so many ticks
-- have passed since, whether or not the count has wrapped around 2 ^ 64 meanwhile. A round of fuel for
-- each read is enough.
pub tick_delay-first :
    (fuel start ticks n : ℕ) (elapsed : ℕ → ℕ)
    → start < 2 ^ 64
    → n < fuel
    → elapsed 0 ≡ 0
    → ((j : ℕ) → 1 ≤ j → j < 1 + n → elapsed j < ticks)
    → ticks ≤ elapsed (1 + n)
    → ((j : ℕ) → j ≤ 1 + n → elapsed j < 2 ^ 64)
    → tick_delay fuel (pos ticks) (λ j. count_after start (elapsed j)) ≡ some (1 + n)
unfolding tick_delay
tick_delay-first fuel start ticks n elapsed s f zero_first before at lim =
    let first : count_after start (elapsed 0) ≡ start = omega (arith, zero_first) in
    rw first (wait-first fuel start ticks 1 n elapsed s f before at lim)
