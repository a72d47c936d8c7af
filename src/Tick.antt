-- ===== src/Tick.antt =====
-- kernel/misc/tick.c and kernel/include/tick.h: the clock's count of ticks, and the queue of watch dogs, each
-- with the ticks from the one before it. A watch dog is known by its address, which is that of its
-- `node`; `list_entry` of the queue's head is the memory there read as a watch dog. NULL is 0. The spin
-- lock around each operation, and what a processor does while it waits, are left out.
pub mod Clock
mod Tests
use mjos.Base.{
  ℕ, zero, suc, ◌+◌, ◌-◌, ◌%◌, ◌^◌, ◌==◌, ltb, if◌then◌else◌, not, ◌&&◌, Bool, true, false, Option,
  none, some,
}
use mjos.Base.Int.{ℤ, pos, negsuc, dec, inc, ◌+ℤ◌, ◌-ℤ◌, le_ℤ}
use mjos.ListHead.{Entries, list_remove, list_insert_before, list_pop_head}

-- `wdog_t` without its node
pub record WatchDog : Type 0 where
  pub ticks : ℤ
  pub proc : ℕ
  pub arg1 : ℕ
  pub arg2 : ℕ
  pub arg3 : ℕ
  pub arg4 : ℕ

-- `tick_q`, whose head is at `head`, the watch dogs, and `tick_count`
pub record TickQueue : Type 0 where
  pub head : ℕ
  pub entries : Entries
  pub dogs : ℕ → WatchDog
  pub tick_count : ℕ

unfoldable pub set_dog : (ℕ → WatchDog) → ℕ → WatchDog → ℕ → WatchDog
set_dog dogs p v a = if a == p then v else dogs a

-- An `int` after a step of arithmetic, in 32 bits.
abbrev pub as_int : ℤ → ℤ
as_int (pos n) = let w = n % 2 ^ 32 in if ltb w (2 ^ 31) then pos w else negsuc (2 ^ 32 - 1 - w)
as_int (negsuc n) = let w = n % 2 ^ 32 in if ltb w (2 ^ 31) then negsuc w else pos (2 ^ 32 - 1 - w)

-- The loop of `wdog_start` from `node` on, with fuel: the node to stand before, and the ticks left.
unfoldable pub find_place : ℕ → TickQueue → ℕ → ℤ → Option (ℕ × ℤ)
find_place zero q node ticks = none
find_place (suc fuel) q node ticks =
    let dog = q.dogs node in
    let rest = find_place fuel q (q.entries node).next (as_int (ticks -ℤ dog.ticks)) in
    if not (q.head == node) && le_ℤ dog.ticks ticks then rest else some (node, ticks)

-- The rest of `wdog_start`.
unfoldable pub put_before : ℕ → ℕ → ℤ → TickQueue → TickQueue
put_before wd node ticks q =
    let dogs = set_dog q.dogs wd (record (q.dogs wd) { ticks = ticks }) in
    let dogs' =
      (if node == 0
        then dogs
        else set_dog dogs node
            (record (dogs node) { ticks = as_int ((dogs node).ticks -ℤ ticks) })) in
    record q { dogs = dogs'; entries = list_insert_before wd node q.entries }

-- `wd->proc` to `wd->arg4`
abbrev pub set_work : ℕ → ℕ → ℕ → ℕ → ℕ → ℕ → TickQueue → TickQueue
set_work wd proc a1 a2 a3 a4 q = record q {
  dogs =
      set_dog q.dogs wd
        (record (q.dogs wd) { proc = proc; arg1 = a1; arg2 = a2; arg3 = a3; arg4 = a4 });
}

-- `wdog_start` for a `wd` that is not NULL; the assertions on `ticks` and `proc` fail as `none`.
unfoldable pub wdog_start : ℕ → ℕ → ℤ → ℕ → ℕ → ℕ → ℕ → ℕ → TickQueue → Option TickQueue
wdog_start fuel wd ticks proc a1 a2 a3 a4 q =
    let q1 = set_work wd proc a1 a2 a3 a4 q in
    let place = find_place fuel q1 (q1.entries q1.head).next (as_int (inc ticks)) in
    if not (proc == 0) && le_ℤ (pos 0) ticks
    then (if not ((q.dogs wd).proc == 0)
        then some q
        else elim place [ none ↦ none | some (node, left) ↦ some (put_before wd node left q1) ])
    else none

-- `wdog_stop`
unfoldable pub wdog_stop : ℕ → TickQueue → TickQueue
wdog_stop wd q =
    let next = (q.entries wd).next in
    let dogs = set_dog q.dogs wd (record (q.dogs wd) { proc = 0 }) in
    let dogs' =
      (if next == 0
        then dogs
        else set_dog dogs next
            (record (dogs next) { ticks = as_int ((dogs next).ticks +ℤ (dogs wd).ticks) })) in
    if not ((q.dogs wd).proc == 0)
    then record q { entries = list_remove wd q.entries; dogs = dogs' }
    else q

-- What a round of the loop of `tick_proc` does before the call.
unfoldable pub take_first : ℕ → TickQueue → TickQueue
take_first node q = record q {
  entries = (list_pop_head q.head q.entries).1;
  dogs = set_dog q.dogs node (record (q.dogs node) { proc = 0 });
}

-- `atomic_inc(&tick_count)`, and `--wdog->ticks` for the first one
unfoldable pub count_tick : TickQueue → TickQueue
count_tick q =
    let node = (q.entries q.head).next in
    let dogs =
      (if node == 0
        then q.dogs
        else set_dog q.dogs node
            (record (q.dogs node) { ticks = as_int (dec (q.dogs node).ticks) })) in
    record q { dogs = dogs; tick_count = (q.tick_count + 1) % 2 ^ 64 }

module _ {ℓ} {World : Type ℓ}
    (call : ℕ → ℕ → ℕ → ℕ → ℕ → World × TickQueue → World × TickQueue) where
  -- The work of a watch dog, `call`, may change the queue and anything else.
  abbrev pub bark : WatchDog → World × TickQueue → World × TickQueue
  bark dog s = call dog.proc dog.arg1 dog.arg2 dog.arg3 dog.arg4 s

  -- The loop of `tick_proc`, with fuel; a call of NULL is `none`.
  unfoldable pub expire : ℕ → World → TickQueue → Option (World × TickQueue)
  expire zero w q = none
  expire (suc fuel) w q =
      let node = (q.entries q.head).next in
      let called = bark (q.dogs node) (w, take_first node q) in
      let rest = expire fuel called.0 called.1 in
      if not (node == 0) && le_ℤ (q.dogs node).ticks (pos 0)
      then (if (q.dogs node).proc == 0 then none else rest)
      else some (w, q)

  -- `tick_proc`
  unfoldable pub tick_proc : ℕ → ℕ → World → TickQueue → Option (World × TickQueue)
  tick_proc fuel cpu_index w q =
      let run = expire fuel w (count_tick q) in if cpu_index == 0 then run else some (w, q)

-- `tick_get`
abbrev pub tick_get : TickQueue → ℕ
tick_get q = q.tick_count

-- `(usize) ticks`
abbrev pub usize_of : ℤ → ℕ
usize_of (pos n) = n
usize_of (negsuc n) = 2 ^ 64 - 1 - n

-- The loop of `tick_delay`, with fuel, from read `k` of the count on: the number of reads.
unfoldable pub wait_until : ℕ → (ℕ → ℕ) → ℕ → ℕ → ℕ → Option ℕ
wait_until zero counts start ticks k = none
wait_until (suc fuel) counts start ticks k =
    let rest = wait_until fuel counts start ticks (k + 1) in
    if ltb ((counts k + 2 ^ 64 - start) % 2 ^ 64) ticks then rest else some k

-- `tick_delay`, where the clock makes read `k` of the count `counts k`
unfoldable pub tick_delay : ℕ → ℤ → (ℕ → ℕ) → Option ℕ
tick_delay fuel ticks counts = wait_until fuel counts (counts 0) (usize_of ticks) 1
