-- ===== src/Ipc/Tests.antt =====
-- Two processes, and the theorems about a message to the second one.
use mjos.Base.{ℕ, ◌+◌, ◌≡◌, ◌≢◌, ◌<◌, inl, refl, ◌==◌, if◌then◌else◌, none, some, arith}
use mjos.Base.Int.{pos, negsuc}
use mjos.CString.{strlen, strlen_from}
use mjos.ListHead.{Entries, list_find, find_from}
use mjos.Spin.{spin_init, draw_ticket, atomic32_inc}
use mjos.Ipc.{Ipc, set_lock, get_process, new_locks, send_to, do_send_message, do_read_message}
use mjos.Ipc.Message.{IsEmptyBox, send-read}
use mjos.Ipc.Service.{do_func_register, do_print_msg}

-- The list's head is at 10; process 20 has the id 0, process 30 the id 1 and its shared memory at 4096.
abbrev processes : Entries
processes a =
    if a == 10
    then record { prev = 30; next = 20 }
    else if a == 20
    then record { prev = 10; next = 30 }
    else record { prev = 20; next = 10 }

abbrev unset : Ipc
unset = record {
  process_list = 10;
  entries = processes;
  pid = λ a. if a == 30 then 1 else 0;
  shared_mem = λ a. if a == 30 then 4096 else 0;
  read_lock = λ a. spin_init;
  write_lock = λ a. spin_init;
  mem = λ a. a;
}

abbrev started : Ipc
started = new_locks 30 unset

started-IsEmptyBox : IsEmptyBox started 30
unfolding set_lock draw_ticket atomic32_inc
started-IsEmptyBox = ((refl, omega arith), (refl, omega arith))

found : get_process 3 1 started ≡ some (some 30)
unfolding get_process list_find find_from
found = refl

-- A process that does not exist is NULL, and its shared memory is read there.
lost : do_send_message 3 7 100 5 started ≡ none
unfolding do_send_message get_process list_find find_from
lost = refl

-- The thread that is without shared memory gets -1.
no_memory : do_send_message 3 0 100 5 started ≡ some (negsuc 0, started)
unfolding do_send_message send_to get_process list_find find_from
no_memory = refl

-- The process with the id 0 registers itself in vain.
abbrev registered : ℕ → ℕ
registered = (do_func_register 1 (pos 0) 0 (λ f. 0)).1

registered_zero : do_print_msg 3 0 registered 0 started ≡ some (negsuc 0, started)
unfolding do_print_msg do_func_register strlen strlen_from
registered_zero = refl

there : started.shared_mem 30 ≢ 0
there e = omega (arith, e)

five : ◌≢◌ {A = ℕ} 5 0
five e = omega (arith, e)

send-read_example :
    (st1 : Ipc) × (st2 : Ipc) × (do_send_message 3 1 100 5 started ≡ some (pos 5, st1))
    × (do_read_message 30 200 st1 ≡ some (pos 5, st2))
    × IsEmptyBox st2 30
    × ((i : ℕ) → i < 5 → st2.mem (200 + i) ≡ 100 + i)
send-read_example =
    send-read 3 1 30 100 200 5 started found started-IsEmptyBox there five (omega arith)
      (inl (omega arith)) (inl (omega arith))
