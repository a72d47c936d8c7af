-- ===== src/Ipc/Service.antt =====
-- Services of processes for the kernel: `do_func_register` and `do_print_msg` of kernel/syscall/syscall.c.
-- The table has the process id for each system function; 0 is read as nobody.
use mjos.Base.{ℕ, ◌%◌, ◌^◌, ◌==◌, ltb, if◌then◌else◌, Option, none, some}
use mjos.Base.Int.{ℤ, pos, negsuc}
use mjos.CString.{strlen}
use mjos.Ipc.{Ipc, do_send_message}

-- `do_func_register` by the process `pid`; `functions` is SYS_FUNC_END.
unfoldable pub do_func_register : ℕ → ℤ → ℕ → (ℕ → ℕ) → ℤ × (ℕ → ℕ)
do_func_register functions (pos funnum) pid table =
    if ltb funnum functions
    then (pos funnum, λ f. if f == funnum then pid else table f)
    else (negsuc 0, table)
do_func_register functions (negsuc n) pid table = (negsuc 0, table)

-- `do_print_msg`; `print` is SYS_FUNC_PRINTMSG.
unfoldable pub do_print_msg : ℕ → ℕ → (ℕ → ℕ) → ℕ → Ipc → Option (ℤ × Ipc)
do_print_msg fuel print table msg st = elim (strlen fuel st.mem msg) [
  | none ↦ if table print == 0 then some (negsuc 0, st) else none
  | some size ↦
      if table print == 0
      then some (negsuc 0, st)
      else do_send_message fuel (table print) msg (size % 2 ^ 32) st
]
