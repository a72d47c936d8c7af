-- ===== src/Ipc.antt =====
-- Messages between processes: kernel/process/ipc.c, with `get_process` of kernel/process/process.c and the
-- locks that `create_process` leaves. A process is known by the address of its entry in the list of
-- processes. An `int` in memory is its four bytes, and `size` is an `int` as its 32 bits. A call that has
-- to wait for a lock, or that reads through NULL, is `none`: what other threads do meanwhile is not in
-- the model.
pub mod Words
pub mod Message
pub mod Empty
pub mod Service
mod Tests
use mjos.Base.{
  ℕ, ◌+◌, ◌-◌, ◌*◌, ◌/◌, ◌%◌, ◌^◌, ◌==◌, ltb, if◌then◌else◌, Bool, true, false, Option, none, some,
}
use mjos.Base.Int.{ℤ, pos, negsuc}
use mjos.CString.{Mem, store, memcpy}
use mjos.ListHead.{Entries, list_find}
use mjos.Spin.{Spin, spin_init, draw_ticket, is_served, raw_spin_give}

-- The list of processes, the fields of the descriptors that messages use, and the memory.
pub record Ipc : Type 0 where
  pub process_list : ℕ
  pub entries : Entries
  pub pid : ℕ → ℕ
  pub shared_mem : ℕ → ℕ
  pub read_lock : ℕ → Spin
  pub write_lock : ℕ → Spin
  pub mem : Mem

unfoldable pub set_lock : (ℕ → Spin) → ℕ → Spin → ℕ → Spin
set_lock locks p l a = if a == p then l else locks a

-- `get_process`; the inner `none` is NULL.
unfoldable pub get_process : ℕ → ℕ → Ipc → Option (Option ℕ)
get_process fuel pid st = list_find fuel st.process_list (λ c. st.pid c == pid) st.entries

-- The locks of a new process: the lock of the reader is taken.
abbrev pub new_locks : ℕ → Ipc → Ipc
new_locks p st = record st {
  write_lock = set_lock st.write_lock p spin_init;
  read_lock = set_lock st.read_lock p (draw_ticket spin_init).1;
}

-- `raw_spin_take` where nobody else gives the lock meanwhile.
unfoldable pub take_now : Spin → Option Spin
take_now l = let (tkt, l') = draw_ticket l in if is_served tkt l' then some l' else none

-- An `int` in memory.
unfoldable pub store_int : Mem → ℕ → ℕ → Mem
store_int m p v =
    store
      (store (store (store m p (v % 2 ^ 8)) (p + 1) (v / 2 ^ 8 % 2 ^ 8)) (p + 2)
        (v / 2 ^ 16 % 2 ^ 8))
      (p + 3) (v / 2 ^ 24 % 2 ^ 8)

unfoldable pub load_int : Mem → ℕ → ℕ
load_int m p = m p + m (p + 1) * 2 ^ 8 + m (p + 2) * 2 ^ 16 + m (p + 3) * 2 ^ 24

-- `size` as the third parameter of `memcpy`, which string.h declares as a `_u16`, and as a number
unfoldable pub u16_of : ℕ → ℕ
u16_of size = size % 2 ^ 16

unfoldable pub int_value : ℕ → ℤ
int_value size = if ltb size (2 ^ 31) then pos size else negsuc (2 ^ 32 - 1 - size)

-- `do_send_message` to the process `target`.
unfoldable pub send_to : ℕ → ℕ → ℕ → Ipc → Option (ℤ × Ipc)
send_to target str size st =
    let shared = st.shared_mem target in
    let written = store_int (memcpy st.mem (shared + 4) str (u16_of size)) shared size in
    if shared == 0 then some (negsuc 0, st) else elim (take_now (st.write_lock target)) [
      | none ↦ none
      | some l ↦ some (
        int_value size,
        record st {
          mem = written;
          write_lock = set_lock st.write_lock target l;
          read_lock = set_lock st.read_lock target (raw_spin_give (st.read_lock target));
        },
      )
    ]

-- `do_send_message`, with fuel for the list of processes
unfoldable pub do_send_message : ℕ → ℕ → ℕ → ℕ → Ipc → Option (ℤ × Ipc)
do_send_message fuel pid str size st = elim (get_process fuel pid st) [
  | none ↦ none
  | some found ↦ elim found [ none ↦ none | some target ↦ send_to target str size st ]
]

-- `do_read_message` with the reader's lock taken as `l`
unfoldable pub read_with : ℕ → ℕ → Spin → Ipc → ℤ × Ipc
read_with process dst l st =
    let shared = st.shared_mem process in
    let size = load_int st.mem shared in
    let mem' = memcpy st.mem dst (shared + 4) (u16_of size) in
    let given = set_lock st.write_lock process (raw_spin_give (st.write_lock process)) in
    if size == 0
    then (
      pos 0,
      record st { read_lock = set_lock st.read_lock process (raw_spin_give l); write_lock = given },
    )
    else (
      int_value (load_int mem' shared),
      record st { mem = mem'; read_lock = set_lock st.read_lock process l; write_lock = given },
    )

-- `do_read_message` of the current thread's `process`
unfoldable pub do_read_message : ℕ → ℕ → Ipc → Option (ℤ × Ipc)
do_read_message process dst st = elim (take_now (st.read_lock process)) [
  | none ↦ none
  | some l ↦ some (read_with process dst l st)
]
