-- ===== src/Semaphore.antt =====
-- The semaphores of kernel/spin.c, `do_passeren` and `do_verhoog`, over the scheduler. The counter
-- stands at the address that threads wait for; it is an integer, without the wrap-around of its 32
-- bits. `none` is what it is in the scheduler.
pub mod Balance
mod Tests
use mjos.Base.{ℕ, zero, suc, if◌then◌else◌, Bool, true, false, Option, none, some}
use mjos.Base.Int.{ℤ, pos, negsuc, inc, dec}
use mjos.Scheduler.{Sched, wait_mutex, thread_wait, thread_resume}

pub record SemState : Type 0 where
  pub sem : ℤ
  pub sys : Sched

-- `i <= 0`
abbrev pub not_positive : ℤ → Bool
not_positive (pos zero) = true
not_positive (pos (suc n)) = false
not_positive (negsuc n) = true

-- `i < 0`
abbrev pub is_negative : ℤ → Bool
is_negative (pos n) = false
is_negative (negsuc n) = true

-- the state behind a call of the scheduler, with what `atomic32_dec` or `atomic32_inc` returned
abbrev pub with_sched : ℤ → ℤ → Option Sched → Option (ℤ × SemState)
with_sched i sem none = none
with_sched i sem (some sys) = some (i, record { sem = sem; sys = sys })

abbrev pub waited : Option (Bool × Sched) → Option Sched
waited none = none
waited (some (ran, sys)) = some sys

-- `do_passeren` of the semaphore at `address`
unfoldable pub do_passeren : ℕ → SemState → Option (ℤ × SemState)
do_passeren address st =
    if not_positive st.sem
    then with_sched st.sem (dec st.sem) (waited (thread_wait wait_mutex address st.sys))
    else some (st.sem, record st { sem = dec st.sem })

-- `do_verhoog` of the semaphore at `address`, with fuel for `thread_resume`
unfoldable pub do_verhoog : ℕ → ℕ → SemState → Option (ℤ × SemState)
do_verhoog fuel address st =
    if is_negative st.sem
    then with_sched st.sem (inc st.sem) (thread_resume fuel wait_mutex address st.sys)
    else some (st.sem, record st { sem = inc st.sem })
