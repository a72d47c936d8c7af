-- ===== src/Ipc/Empty.antt =====
-- The empty message.
use mjos.Base.{ℕ}
use mjos.Spin.{draw_ticket, raw_spin_give}
use mjos.Ipc.{Ipc, set_lock}

module _ (p dst : ℕ) (st : Ipc) where
  abbrev drained : Ipc
  drained = record st {
    read_lock = set_lock st.read_lock p (raw_spin_give (draw_ticket (st.read_lock p)).1);
    write_lock = set_lock st.write_lock p (raw_spin_give (st.write_lock p));
  }
