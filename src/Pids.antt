-- ===== src/Pids.antt =====
-- Process ids: the bitmap of kernel/process/process.c, with the operations on bitmaps of
-- kernel/include/base.h. The bitmap is the bytes of its page.
pub mod Bits
pub mod First
mod Tests
use Prim.Native.Nat.{bit_or}
use mjos.Base.{
  ℕ, zero, suc, ◌+◌, ◌-◌, ◌*◌, ◌/◌, ◌%◌, ◌^◌, ◌==◌, if◌then◌else◌, Bool, true, false, Option, none,
  some,
}
use mjos.CString.{Mem, store}

-- `_chk_bit(d, bit)` as a condition, `_set_bit` and `_clr_bit`, for a byte
abbrev pub chk_bit : ℕ → ℕ → Bool
chk_bit d bit = d / 2 ^ bit % 2 == 1

abbrev pub set_bit : ℕ → ℕ → ℕ
set_bit d bit = bit_or d (2 ^ bit)

abbrev pub clr_bit : ℕ → ℕ → ℕ
clr_bit d bit = if chk_bit d bit then d - 2 ^ bit else d

-- `chk_bitmap`, `set_bitmap` and `clr_bitmap`
unfoldable pub chk_bitmap : Mem → ℕ → Bool
chk_bitmap bitmap n = chk_bit (bitmap (n / 8)) (n % 8)

unfoldable pub set_bitmap : Mem → ℕ → Mem
set_bitmap bitmap n = store bitmap (n / 8) (set_bit (bitmap (n / 8)) (n % 8))

unfoldable pub clr_bitmap : Mem → ℕ → Mem
clr_bitmap bitmap n = store bitmap (n / 8) (clr_bit (bitmap (n / 8)) (n % 8))

-- The loop of `find_usable_pid`, for `count` ids from `pid` on.
unfoldable pub find_pid : ℕ → ℕ → Mem → Option (ℕ × Mem)
find_pid zero pid bitmap = none
find_pid (suc count) pid bitmap =
    let rest = find_pid count (pid + 1) bitmap in
    if chk_bitmap bitmap pid then rest else some (pid, set_bitmap bitmap pid)

-- `find_usable_pid`; 65535 is `(u16)-1`.
unfoldable pub find_usable_pid : Mem → ℕ × Mem
find_usable_pid bitmap = elim (find_pid 32767 0 bitmap) [
  | none ↦ (65535, bitmap)
  | some found ↦ found
]

-- What `destroy_process` does to the bitmap.
abbrev pub release_pid : ℕ → Mem → Mem
release_pid pid bitmap = clr_bitmap bitmap pid
