-- ===== src/Spin.antt =====
-- The ticket lock of kernel/spin.c and kernel/include/spin.h, with the atomic operations of
-- kernel/arch/x86_64/atomic.S, and the threads that use one lock as a step relation. An `i32` is its
-- 32 bits as a number, since the code only compares tickets for equality.
pub mod Queue
pub mod Exclusion
mod Tests
use mjos.Base.{ℕ, ◌+◌, ◌%◌, ◌^◌, ◌<◌, ◌≡◌, ◌≢◌, ◌==◌, Bool, true, false, if◌then◌else◌}

-- `Spin`
pub record Spin : Type 0 where
  pub tkt : ℕ
  pub svc : ℕ

-- `SPIN_INIT`
abbrev pub spin_init : Spin
spin_init = record { tkt = 0; svc = 0 }

-- What `atomic32_inc` writes; it returns what it read.
unfoldable pub atomic32_inc : ℕ → ℕ
atomic32_inc x = (x + 1) % 2 ^ 32

-- The ticket that `raw_spin_take` draws, and the lock after it.
unfoldable pub draw_ticket : Spin → ℕ × Spin
unfolding atomic32_inc
draw_ticket l = (l.tkt, record l { tkt = atomic32_inc l.tkt })

-- Whether the loop of `raw_spin_take` ends, for the ticket drawn.
unfoldable pub is_served : ℕ → Spin → Bool
is_served tkt l = l.svc == tkt

-- `raw_spin_give`
unfoldable pub raw_spin_give : Spin → Spin
unfolding atomic32_inc
raw_spin_give l = record l { svc = atomic32_inc l.svc }

-- Where a thread is: outside, in the loop of `raw_spin_take` with its local variable `tkt`, or
-- between `raw_spin_take` and `raw_spin_give`.
pub data Phase : Type 0 where
  idle holding : Phase
  waiting : ℕ → Phase

pub record System : Type 0 where
  pub lock : Spin
  pub phase : ℕ → Phase

unfoldable pub move : (ℕ → Phase) → ℕ → Phase → ℕ → Phase
move f t p a = if a == t then p else f a

-- `raw_spin_take` up to its loop
unfoldable pub take : ℕ → System → System
unfolding move draw_ticket
take t s =
    let (tkt, l) = draw_ticket s.lock in record { lock = l; phase = move s.phase t (waiting tkt) }

-- the end of the loop of `raw_spin_take`
unfoldable pub enter : ℕ → System → System
unfolding move
enter t s = record s { phase = move s.phase t holding }

-- a call of `raw_spin_give`
unfoldable pub leave : ℕ → System → System
unfolding move raw_spin_give
leave t s = record { lock = raw_spin_give s.lock; phase = move s.phase t idle }

-- One step of one of `n` threads; only the thread that took the lock gives it.
pub data Step (n : ℕ) (s : System) : System → Type 0 where
  takes : (t : ℕ) → t < n → s.phase t ≡ idle → Step n s (take t s)
  relaxes : (t k : ℕ) → s.phase t ≡ waiting k → is_served k s.lock ≡ false → Step n s s
  enters : (t k : ℕ) → s.phase t ≡ waiting k → is_served k s.lock ≡ true → Step n s (enter t s)
  leaves : (t : ℕ) → s.phase t ≡ holding → Step n s (leave t s)

abbrev pub start : System
start = record { lock = spin_init; phase = λ a. idle }

pub data Reach (n : ℕ) : System → Type 0 where
  starts : Reach n start
  later : {s s' : System} → Reach n s → Step n s s' → Reach n s'
