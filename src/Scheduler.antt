-- ===== src/Scheduler.antt =====
-- kernel/process/scheduler.c: the lists of running and of blocked threads, the round-robin
-- `schedule`, `thread_wait` and `thread_resume`. A thread is known by the address of its `next`
-- entry. The switch of stacks itself (`prepare_switch`, `set_rsp0`, `load_tid_next`,
-- `thread_switch`) is assembly: what is left of it is the new `current`. `none` is a failed
-- assertion, a NULL pointer that is followed, or fuel that ran out.
pub mod Queues
pub mod Wait
pub mod Resume
pub mod Sample
mod Tests
use mjos.Base.{ℕ, zero, suc, ◌==◌, if◌then◌else◌, Bool, true, false, Option, none, some}
use mjos.ListHead.{
  Entries, list_init, list_add, list_add_tail, list_remove, list_empty, list_pop_head,
}

-- `ThreadState`
pub data ThreadState : Type 0 where
  thread_running thread_blocked thread_stopped : ThreadState

-- `enum ThreadWaitType`
pub data WaitType : Type 0 where
  running wait_pid wait_dma wait_file wait_mutex : WaitType

-- The fields of `ThreadDescriptor` that the scheduler reads and writes.
pub record Thread : Type 0 where
  pub state : ThreadState
  pub wait_type : WaitType
  pub wait_value : ℕ

-- The entries of all lists, the threads, the addresses of `running_threads` and of
-- `blocked_threads`, and `current`.
pub record Sched : Type 0 where
  pub entries : Entries
  pub threads : ℕ → Thread
  pub running_threads : ℕ
  pub blocked_threads : ℕ
  pub current : Option ℕ

unfoldable pub set_thread : (ℕ → Thread) → ℕ → Thread → ℕ → Thread
set_thread ts t v a = if a == t then v else ts a

abbrev pub set_state : (ℕ → Thread) → ℕ → ThreadState → ℕ → Thread
set_state ts t s = set_thread ts t (record (ts t) { state = s })

-- `scheduler_init`
unfoldable pub scheduler_init : Sched → Sched
scheduler_init sys = record sys {
  entries = list_init sys.blocked_threads (list_init sys.running_threads sys.entries);
}

-- `add_thread_to_running`
unfoldable pub add_thread_to_running : ℕ → Sched → Sched
unfolding set_thread
add_thread_to_running t sys = record sys {
  threads = set_state sys.threads t thread_running;
  entries = list_add t sys.running_threads sys.entries;
}

-- `remove_thread_from_running`
unfoldable pub remove_thread_from_running : ℕ → Sched → Sched
unfolding set_thread
remove_thread_from_running t sys = record sys {
  threads = set_state sys.threads t thread_blocked;
  entries = list_remove t sys.entries;
}

-- `schedule` from `assert(to_run != NULL)` on.
unfoldable pub run_next : Option ℕ → Entries → Sched → Option (Bool × Sched)
run_next none e sys = none
run_next (some next) e sys =
    some
      (true, record sys { entries = list_add_tail next sys.running_threads e; current = some next })

-- `schedule`
unfoldable pub schedule : Sched → Option (Bool × Sched)
unfolding run_next
schedule sys =
    let (to_run, e) = list_pop_head sys.running_threads sys.entries in
    if list_empty sys.running_threads sys.entries then some (false, sys) else run_next to_run e sys

-- `thread_wait` for the current thread `t`, up to the call of `schedule`.
unfoldable pub block_thread : ℕ → WaitType → ℕ → Sched → Sched
unfolding set_thread remove_thread_from_running
block_thread t type value sys =
    let waiting = record (sys.threads t) { wait_type = type; wait_value = value } in
    let off =
      remove_thread_from_running t (record sys { threads = set_thread sys.threads t waiting }) in
    record off { entries = list_add t off.blocked_threads off.entries }

-- `thread_wait`, for what `current` is.
unfoldable pub wait_as : Option ℕ → WaitType → ℕ → Sched → Option (Bool × Sched)
unfolding block_thread
wait_as none type value sys = none
wait_as (some t) type value sys = schedule (block_thread t type value sys)

-- `thread_wait`
unfoldable pub thread_wait : WaitType → ℕ → Sched → Option (Bool × Sched)
unfolding wait_as
thread_wait type value sys = wait_as sys.current type value sys

-- `resume`
unfoldable pub resume : ℕ → Sched → Sched
unfolding set_thread add_thread_to_running
resume t sys =
    let waiting = record (sys.threads t) { wait_type = running } in
    add_thread_to_running t (record sys {
      threads = set_thread sys.threads t waiting;
      entries = list_remove t sys.entries;
    })

-- What the `switch` of `thread_resume` does with a thread: wake it and go on, wake it and stop, or
-- pass it by.
pub data Verdict : Type 0 where
  wake_on wake_stop pass : Verdict

unfoldable pub verdict : WaitType → Bool → Verdict
verdict wait_dma same = if same then wake_on else pass
verdict wait_pid same = if same then wake_on else pass
verdict wait_mutex same = if same then wake_stop else pass
verdict wait_file same = if same then wake_stop else pass
verdict running same = pass

-- The loop of `thread_resume` from entry `c` on.
unfoldable pub resume_from : ℕ → ℕ → WaitType → ℕ → Sched → Option Sched
unfolding verdict
resume_from zero c type value sys = none
resume_from (suc fuel) c type value sys =
    let next = (sys.entries c).next in
    let woken = resume_from fuel next type value (resume c sys) in
    let passed = resume_from fuel next type value sys in
    let turn : Option Sched = elim (verdict type ((sys.threads c).wait_value == value)) [
      | wake_on ↦ woken
      | wake_stop ↦ some (resume c sys)
      | pass ↦ passed
    ] in
    if c == sys.blocked_threads then some sys else turn

-- `thread_resume`
unfoldable pub thread_resume : ℕ → WaitType → ℕ → Sched → Option Sched
thread_resume fuel type value sys =
    resume_from fuel (sys.entries sys.blocked_threads).next type value sys
