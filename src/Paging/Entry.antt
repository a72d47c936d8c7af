-- ===== src/Paging/Entry.antt =====
-- The bits of an entry: its present bit and its address behind the flags that are put in.
use Prim.Native.Nat.{bit_or}
use mjos.Base.{ℕ, ◌/◌, ◌%◌, ◌≡◌, ◌<◌, ap, ◌==◌, arith}
use mjos.Base.Bits.{bit_or_step, bit_or-zero}
use mjos.Paging.{present, entry_addr, uncached}

-- a mask below 32 leaves what is above its five digits
pub bit_or-high : (a b : ℕ) → b < 32 → bit_or a b / 32 ≡ a / 32
bit_or-high a b h =
    let a5 = a / 2 / 2 / 2 / 2 / 2 in
    let none_left : (b / 2 / 2 / 2 / 2 / 2) ≡ 0 = omega arith in
    omega (
      arith,
      bit_or_step a b,
      bit_or_step (a / 2) (b / 2),
      bit_or_step (a / 2 / 2) (b / 2 / 2),
      bit_or_step (a / 2 / 2 / 2) (b / 2 / 2 / 2),
      bit_or_step (a / 2 / 2 / 2 / 2) (b / 2 / 2 / 2 / 2),
      ap (bit_or a5) none_left,
      bit_or-zero a5,
    )

pub entry_addr-uncached : (v : ℕ) → entry_addr (uncached v) ≡ entry_addr v
unfolding entry_addr uncached
entry_addr-uncached v =
    omega (arith, bit_or-high v 16 (omega arith), bit_or-high (bit_or v 16) 8 (omega arith))

odd-uncached : (v : ℕ) → uncached v % 2 ≡ v % 2
unfolding uncached
odd-uncached v = omega (arith, bit_or_step v 16, bit_or_step (bit_or v 16) 8)

pub present-uncached : (v : ℕ) → present (uncached v) ≡ present v
unfolding present
present-uncached v = ap (λ n. n == 1) (odd-uncached v)
