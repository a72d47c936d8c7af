-- ===== src/Ipc/Message.antt =====
-- A message that is sent and read.
use mjos.Base.{
  ℕ, ◌+◌, ◌^◌, ◌≤◌, ◌<◌, ◌≡◌, ◌≢◌, ◌⊎◌, inr, refl, ap, ◌∙◌, ◌==◌, false, none, some, arith,
}
use mjos.Base.Int.{pos}
use mjos.CString.{memcpy}
use mjos.CString.Copy.{memcpy-frame, memcpy-copies}
use mjos.Spin.{draw_ticket, raw_spin_give}
use mjos.Ipc.{
  Ipc, set_lock, get_process, take_now, store_int, load_int, u16_of, int_value, send_to,
  do_send_message, read_with, do_read_message,
}
use mjos.Ipc.Words.{
  store_int-frame, load_int-store_int, load_int-frame, u16_of-small, int_value-small, set_lock_self,
  IsFree, IsHeld, take_now-free, take_now-held, give-held,
}

-- No message is there: a writer may come, and a reader waits. And the other way round.
abbrev pub IsEmptyBox : Ipc → ℕ → Type 0
IsEmptyBox st p = IsFree (st.write_lock p) × IsHeld (st.read_lock p)

abbrev pub IsFullBox : Ipc → ℕ → Type 0
IsFullBox st p = IsHeld (st.write_lock p) × IsFree (st.read_lock p)

-- `size` bytes from `a` on that do not touch the message of `size` bytes at `shared`.
abbrev pub Beside : ℕ → ℕ → ℕ → Type 0
Beside a size shared = (a + size ≤ shared) ⊎ (shared + 4 + size ≤ a)

module _ (p str size : ℕ) (st : Ipc) where
  abbrev pub sent : Ipc
  sent = record st {
    mem = store_int (memcpy st.mem (st.shared_mem p + 4) str (u16_of size)) (st.shared_mem p) size;
    write_lock = set_lock st.write_lock p (draw_ticket (st.write_lock p)).1;
    read_lock = set_lock st.read_lock p (raw_spin_give (st.read_lock p));
  }

  pub send-empty :
      (fuel pid : ℕ)
      → get_process fuel pid st ≡ some (some p)
      → st.shared_mem p ≢ 0
      → IsFree (st.write_lock p)
      → do_send_message fuel pid str size st ≡ some (int_value size, sent)
  unfolding do_send_message send_to
  send-empty fuel pid found n free =
      let there : (st.shared_mem p == 0) ≡ false = ground (arith, n) in
      let taken = (take_now-free (st.write_lock p) free).0 in
      rw (found, do_send_message) (rw there (rw (taken, send_to) refl))

  pub sent-IsFullBox : IsEmptyBox st p → IsFullBox sent p
  sent-IsFullBox (free, held) = (
    rw (set_lock_self st.write_lock p (draw_ticket (st.write_lock p)).1)
        (take_now-free (st.write_lock p) free).1,
    rw (set_lock_self st.read_lock p (raw_spin_give (st.read_lock p)))
        (give-held (st.read_lock p) held),
  )

  pub sent-size : size < 2 ^ 32 → load_int sent.mem (st.shared_mem p) ≡ size
  sent-size h = load_int-store_int _ (st.shared_mem p) size h

  sent-bytes :
      (i : ℕ)
      → size < 2 ^ 16
      → Beside str size (st.shared_mem p)
      → i < size
      → sent.mem (st.shared_mem p + 4 + i) ≡ st.mem (str + i)
  sent-bytes i lim apart h =
      store_int-frame _ (st.shared_mem p) size (st.shared_mem p + 4 + i) (inr (omega arith))
      ∙ rw (u16_of-small size lim)
          (memcpy-copies st.mem (st.shared_mem p + 4) str size i (omega (arith, apart)) h)

-- Reading from a box with a message.
module _ (p dst size : ℕ) (st : Ipc) where
  abbrev pub received : Ipc
  received = record st {
    mem = memcpy st.mem dst (st.shared_mem p + 4) size;
    read_lock = set_lock st.read_lock p (draw_ticket (st.read_lock p)).1;
    write_lock = set_lock st.write_lock p (raw_spin_give (st.write_lock p));
  }

  received-IsEmptyBox : IsFullBox st p → IsEmptyBox received p
  received-IsEmptyBox (held, free) = (
    rw (set_lock_self st.write_lock p (raw_spin_give (st.write_lock p)))
        (give-held (st.write_lock p) held),
    rw (set_lock_self st.read_lock p (draw_ticket (st.read_lock p)).1)
        (take_now-free (st.read_lock p) free).1,
  )

  received-size :
      Beside dst size (st.shared_mem p)
      → load_int received.mem (st.shared_mem p) ≡ load_int st.mem (st.shared_mem p)
  received-size apart = load_int-frame st.mem received.mem (st.shared_mem p) (λ i h.
      memcpy-frame st.mem dst (st.shared_mem p + 4) size (st.shared_mem p + i)
        (omega (arith, apart)))

  read-full :
      IsFree (st.read_lock p)
      → size ≢ 0
      → size < 2 ^ 16
      → Beside dst size (st.shared_mem p)
      → load_int st.mem (st.shared_mem p) ≡ size
      → do_read_message p dst st ≡ some (pos size, received)
  unfolding do_read_message read_with
  read-full free n lim apart e =
      let some_bytes : (size == 0) ≡ false = ground (arith, n) in
      let small = u16_of-small size lim in
      let again = received-size apart ∙ e in
      let taken = (take_now-free (st.read_lock p) free).0 in
      rw (taken, do_read_message)
        (rw (e, some_bytes, small, again, int_value-small size (omega arith)) refl)

-- A message of at least one byte, and less than 2 ^ 16, to a process that is found, has shared
-- memory and an empty box: `do_send_message` returns its size, then `do_read_message` of that
-- process returns the size and puts the bytes of the message at `dst`, and the box is empty again.
-- The message and `dst` do not touch the shared memory that holds the message.
pub send-read :
    (fuel pid p str dst size : ℕ) (st : Ipc)
    → get_process fuel pid st ≡ some (some p)
    → IsEmptyBox st p
    → st.shared_mem p ≢ 0
    → size ≢ 0
    → size < 2 ^ 16
    → Beside str size (st.shared_mem p)
    → Beside dst size (st.shared_mem p)
    → (st1 : Ipc) × (st2 : Ipc) × (do_send_message fuel pid str size st ≡ some (pos size, st1))
      × (do_read_message p dst st1 ≡ some (pos size, st2))
      × IsEmptyBox st2 p
      × ((i : ℕ) → i < size → st2.mem (dst + i) ≡ st.mem (str + i))
send-read fuel pid p str dst size st found box n some_bytes lim from into =
    let st1 = sent p str size st in
    let full = sent-IsFullBox p str size st box in
    (
      st1,
      received p dst size st1,
      send-empty p str size st fuel pid found n box.0
          ∙ ap (λ k. some (k, st1)) (int_value-small size (omega arith)),
      read-full p dst size st1 full.1 some_bytes lim into (sent-size p str size st (omega arith)),
      received-IsEmptyBox p dst size st1 full,
      λ i h.
          memcpy-copies st1.mem dst (st1.shared_mem p + 4) size i (omega (arith, into)) h
          ∙ sent-bytes p str size st i lim from h,
    )

pub send-blocked :
    (fuel pid p str size : ℕ) (st : Ipc)
    → get_process fuel pid st ≡ some (some p)
    → st.shared_mem p ≢ 0
    → take_now (st.write_lock p) ≡ none
    → do_send_message fuel pid str size st ≡ none
unfolding do_send_message send_to
send-blocked fuel pid p str size st found n held =
    let there : (st.shared_mem p == 0) ≡ false = ground (arith, n) in
    rw (found, do_send_message) (rw there (rw (held, send_to) refl))

-- Nobody passes where he has to wait: a second message is not sent before the first is read, and none is
-- read from an empty box.
pub send-waits :
    (fuel pid p str size : ℕ) (st : Ipc)
    → get_process fuel pid st ≡ some (some p)
    → st.shared_mem p ≢ 0
    → IsFullBox st p
    → do_send_message fuel pid str size st ≡ none
send-waits fuel pid p str size st found n full =
    send-blocked fuel pid p str size st found n (take_now-held (st.write_lock p) full.0)

pub read-waits : (p dst : ℕ) (st : Ipc) → IsEmptyBox st p → do_read_message p dst st ≡ none
unfolding do_read_message
read-waits p dst st box =
    let held = take_now-held (st.read_lock p) box.1 in rw (held, do_read_message) refl
