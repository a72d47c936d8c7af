-- ===== src/EarlyHeap.antt =====
-- The bump allocator of kernel/memory/early_kmalloc.c that serves until the page tables stand.
-- Addresses wrap around in 64 bits; log lines are left out.
pub mod Bump
mod Tests
use mjos.Base.{
  ℕ, zero, suc, ◌+◌, ◌-◌, ◌*◌, ◌/◌, ◌%◌, ◌^◌, leb, not, if◌then◌else◌, ◌||◌, Bool, true, false,
  Option, none, some,
}

-- `PAGESIZE`
abbrev pub page_size : ℕ
page_size = 4096

-- `ROUND_UP(x, PAGESIZE)`
abbrev pub round_up : ℕ → ℕ
round_up x = (x + page_size - 1) / page_size * page_size

-- The variables of early_kmalloc.c.
pub record EarlyHeap : Type 0 where
  pub heap_end : ℕ
  pub heap_ptr : ℕ
  pub inited : Bool
  pub available : Bool

-- `early_kmalloc_init`
unfoldable pub early_kmalloc_init : ℕ → EarlyHeap → EarlyHeap
early_kmalloc_init kernel_end h = if h.inited then h else record {
  heap_end = (kernel_end + page_size - 1) % 2 ^ 64 / page_size * page_size;
  heap_ptr = kernel_end;
  inited = true;
  available = true;
}

-- `early_kmalloc_depercated`
unfoldable pub early_kmalloc_depercated : EarlyHeap → EarlyHeap
early_kmalloc_depercated h = record h { available = false }

-- The loop of `early_kmalloc`: `heap_end` after it, `none` where the fuel runs out.
unfoldable pub grow : ℕ → ℕ → ℕ → Option ℕ
grow zero end ptr = none
grow (suc fuel) end ptr =
    let rest = grow fuel ((end + page_size) % 2 ^ 64) ptr in if leb end ptr then rest else some end

-- The end of `early_kmalloc`, with `heap_end` after its loop.
abbrev pub bump : EarlyHeap → ℕ → Option ℕ → Option (Option ℕ × EarlyHeap)
bump h size none = none
bump h size (some end) =
    some (some h.heap_ptr, record h { heap_ptr = (h.heap_ptr + size) % 2 ^ 64; heap_end = end })

-- `early_kmalloc` on fuel; the inner `none` is NULL.
unfoldable pub early_kmalloc : ℕ → ℕ → EarlyHeap → Option (Option ℕ × EarlyHeap)
unfolding grow
early_kmalloc fuel size h =
    if not h.inited
    then some (none, h)
    else if not h.available
    then some (none, h)
    else bump h size (grow fuel h.heap_end ((h.heap_ptr + size) % 2 ^ 64))
