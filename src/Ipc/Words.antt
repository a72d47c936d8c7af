-- ===== src/Ipc/Words.antt =====
-- Numbers in memory, and locks.
use mjos.Base.{ℕ, ◌+◌, ◌%◌, ◌^◌, ◌<◌, ◌≡◌, refl, ◌==◌, ltb, true, false, none, some, arith}
use mjos.Base.Int.{pos}
use mjos.CString.{Mem, store}
use mjos.CString.Copy.{Outside}
use mjos.Spin.{Spin, draw_ticket, is_served, raw_spin_give, atomic32_inc}
use mjos.Ipc.{set_lock, take_now, store_int, load_int, u16_of, int_value}

pub store_int-frame : (m : Mem) (p v a : ℕ) → Outside a p 4 → store_int m p v a ≡ m a
unfolding store_int store
store_int-frame m p v a o = ground (arith, o)

pub load_int-store_int : (m : Mem) (p v : ℕ) → v < 2 ^ 32 → load_int (store_int m p v) p ≡ v
unfolding store_int load_int store
load_int-store_int m p v h = ground (arith, h)

pub load_int-frame :
    (m m' : Mem) (p : ℕ) → ((i : ℕ) → i < 4 → m' (p + i) ≡ m (p + i)) → load_int m' p ≡ load_int m p
unfolding load_int
load_int-frame m m' p same =
    let at : p + 0 ≡ p = omega arith in
    let first : m' p ≡ m p = rw at at (same 0 (omega arith)) in
    rw (first, same 1 (omega arith), same 2 (omega arith), same 3 (omega arith)) refl

pub u16_of-small : (size : ℕ) → size < 2 ^ 16 → u16_of size ≡ size
unfolding u16_of
u16_of-small size h = omega arith

pub int_value-small : (size : ℕ) → size < 2 ^ 31 → int_value size ≡ pos size
unfolding int_value
int_value-small size h = let e : ltb size (2 ^ 31) ≡ true = ground arith in rw e refl

pub set_lock_self : (locks : ℕ → Spin) (p : ℕ) (l : Spin) → set_lock locks p l p ≡ l
unfolding set_lock
set_lock_self locks p l = let e : (p == p) ≡ true = ground arith in rw e refl

-- A free lock has been given as often as taken; a held one once less.
abbrev pub IsFree : Spin → Type 0
IsFree l = (l.tkt ≡ l.svc) × (l.svc < 2 ^ 32)

abbrev pub IsHeld : Spin → Type 0
IsHeld l = (l.tkt ≡ (l.svc + 1) % 2 ^ 32) × (l.svc < 2 ^ 32)

pub take_now-free :
    (l : Spin) → IsFree l → (take_now l ≡ some (draw_ticket l).1) × IsHeld (draw_ticket l).1
unfolding take_now draw_ticket is_served atomic32_inc
take_now-free l (same, lim) =
    let e : (l.svc == l.tkt) ≡ true = ground (arith, same) in
    (rw e refl, (omega (arith, same), lim))

pub take_now-held : (l : Spin) → IsHeld l → take_now l ≡ none
unfolding take_now draw_ticket is_served atomic32_inc
take_now-held l (next, lim) =
    let e : (l.svc == l.tkt) ≡ false = ground (arith, next, lim) in rw e refl

pub give-held : (l : Spin) → IsHeld l → IsFree (raw_spin_give l)
unfolding raw_spin_give atomic32_inc
give-held l (next, lim) = (next, omega arith)

-- A free lock that is given is never served again while nobody else gives it.
pub take_now-given : (l : Spin) → IsFree l → take_now (raw_spin_give l) ≡ none
unfolding take_now draw_ticket is_served raw_spin_give atomic32_inc
take_now-given l (same, lim) =
    let e : ((l.svc + 1) % 2 ^ 32 == l.tkt) ≡ false = ground (arith, same, lim) in rw e refl
