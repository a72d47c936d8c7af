-- ===== src/Tick/Tests.antt =====
-- The clock at concrete counts.
use mjos.Base.{ℕ, ◌*◌, ◌-◌, ◌^◌, ◌≡◌, refl, some, [], ◌∷◌, arith}
use mjos.Base.Int.{pos}
use mjos.Tick.{TickQueue, tick_delay}
use mjos.Tick.Clock.{clock_ticks, interrupts, interrupts-count, count_after, tick_delay-first}

-- the queue as tick.c leaves it, and a count that is about to wrap around
abbrev unset : TickQueue
unset = record {
  head = 64;
  entries = λ a. record { prev = 0; next = 0 };
  dogs = λ a. record { ticks = pos 0; proc = 0; arg1 = 0; arg2 = 0; arg3 = 0; arg4 = 0 };
  tick_count = 2 ^ 64 - 1;
}

-- Two interrupts on processor 0 and one on processor 3.
interrupts-count_example :
    interrupts {World = ℕ} (λ p a b c d s. s) 1 (0 ∷ 3 ∷ 0 ∷ []) 5 unset
    ≡ some (5, record unset { tick_count = 1 })
unfolding clock_ticks
interrupts-count_example =
    interrupts-count (λ p a b c d s. s) 0 (0 ∷ 3 ∷ 0 ∷ []) 5 unset refl (omega arith)

-- Two ticks pass between two reads: ten have passed at the fifth read behind the first one.
tick_delay-first_example : tick_delay 9 (pos 10) (λ j. count_after (2 ^ 64 - 4) (j * 2)) ≡ some 5
tick_delay-first_example =
    tick_delay-first 9 (2 ^ 64 - 4) 10 4 (λ j. j * 2) (omega arith) (omega arith) refl
      (λ j l h. omega arith) (omega arith) (λ j h. omega arith)
