-- ===== src/Paging/Sbrk.antt =====
-- `do_sbrk` of kernel/memory/sbrk.c: the end of a process' heap, and the pages behind it.
use mjos.Base.{
  ℕ, ◌+◌, ◌-◌, ◌*◌, ◌/◌, ◌%◌, ◌^◌, ◌≤◌, ◌<◌, ◌≡◌, refl, ◌==◌, ==_self, ltb, leb, if◌then◌else◌,
  true, Option, none, some, arith,
}
use mjos.Base.Int.{ℤ, pos, negsuc}
use mjos.Paging.{Vm}
use mjos.Paging.Alloc.{normal_pages_alloc, normal_pages_release}

-- The fields of `ProcessDescriptor` that `do_sbrk` uses.
pub record Process : Type 0 where
  pub heap_end : ℕ
  pub linear_end : ℕ
  pub cr3 : ℕ

-- a pointer moved by an `int`, in 64 bits
unfoldable pub moved : ℕ → ℤ → ℕ
moved a (pos n) = (a + n) % 2 ^ 64
moved a (negsuc n) = (a + (2 ^ 64 - n - 1)) % 2 ^ 64

-- `ROUND_UP(x, PAGESIZE)`
abbrev pub page_up : ℕ → ℕ
page_up x = (x + 4095) / 4096 * 4096

-- The branch that allocates pages, with the assertion on their address.
unfoldable pub grow_linear : ℕ → ℕ → Process → Vm → Option (Process × Vm)
grow_linear rounds fuel p vm =
    let mem_size = page_up (p.heap_end - p.linear_end) in
    elim (normal_pages_alloc rounds fuel p.cr3 p.linear_end (mem_size / 4096) vm) [
      | none ↦ none
      | some (new_mem, vm') ↦
          if new_mem == p.linear_end
          then some (record p { linear_end = p.linear_end + mem_size }, vm')
          else none
    ]

-- The branch that gives pages back. The number of pages is passed as the page table, and the page table
-- as the number of pages. `current` is the page table that the release translates with.
unfoldable pub shrink_linear : ℕ → ℕ → Process → Vm → Option (Process × Vm)
shrink_linear fuel current p vm =
    let mem_end = page_up p.heap_end in
    let pages = (p.linear_end - mem_end) / 4096 in
    elim (normal_pages_release (p.cr3 % 2 ^ 32) fuel current mem_end pages vm) [
      | none ↦ none
      | some vm' ↦ some (record p { linear_end = mem_end }, vm')
    ]

abbrev pub returning : ℕ → Option (Process × Vm) → Option (ℕ × Process × Vm)
returning a none = none
returning a (some (p, vm)) = some (a, p, vm)

-- `do_sbrk`
unfoldable pub do_sbrk : ℕ → ℕ → ℤ → Process → Vm → Option (ℕ × Process × Vm)
unfolding moved
do_sbrk rounds fuel inc p vm =
    let p' = record p { heap_end = moved p.heap_end inc } in
    if ltb p.linear_end p'.heap_end
    then returning p.heap_end (grow_linear rounds fuel p' vm)
    else if leb 4096 (p.linear_end - p'.heap_end)
    then returning p.heap_end (shrink_linear fuel p.cr3 p' vm)
    else some (p.heap_end, p', vm)

-- the pages of a heap reach to its end, and no page further
pub record IsHeap (p : Process) : Type 0 where
  pub inside : p.heap_end ≤ p.linear_end
  pub tight : p.linear_end < p.heap_end + 4096
  pub whole : p.linear_end % 4096 ≡ 0

grow-step :
    (rounds fuel size : ℕ) (p : Process) (vm vm' : Vm)
    → page_up (p.heap_end - p.linear_end) ≡ size
    → normal_pages_alloc rounds fuel p.cr3 p.linear_end (size / 4096) vm ≡ some (p.linear_end, vm')
    → grow_linear rounds fuel p vm ≡ some (record p { linear_end = p.linear_end + size }, vm')
unfolding grow_linear
grow-step rounds fuel size p vm vm' e taken =
    rw (e, taken, grow_linear) (rw (==_self p.linear_end) (rw e refl))

sbrk-step :
    (rounds fuel a : ℕ) (inc : ℤ) (p p' : Process) (vm vm' : Vm)
    → moved p.heap_end inc ≡ a
    → p.linear_end < a
    → grow_linear rounds fuel (record p { heap_end = a }) vm ≡ some (p', vm')
    → do_sbrk rounds fuel inc p vm ≡ some (p.heap_end, p', vm')
unfolding do_sbrk
sbrk-step rounds fuel a inc p p' vm vm' e more grown =
    let above : ltb p.linear_end a ≡ true = ground arith in rw (e, above, do_sbrk) (rw grown refl)

moved-up : (a n : ℕ) → a + n < 2 ^ 63 → moved a (pos n) ≡ a + n
unfolding moved
moved-up a n h = omega arith

-- A heap that grows beyond its pages, where the pages behind them are to be had at the place behind them:
-- `do_sbrk` returns the old end of the heap, the new one is `n` bytes further, and again the pages
-- reach to the end of the heap and no page further.
pub do_sbrk-IsHeap :
    (rounds fuel n : ℕ) (p : Process) (vm vm' : Vm)
    → IsHeap p
    → p.heap_end + n < 2 ^ 63
    → p.linear_end < p.heap_end + n
    → normal_pages_alloc rounds fuel p.cr3 p.linear_end
        (page_up (p.heap_end + n - p.linear_end) / 4096)
        vm
      ≡ some (p.linear_end, vm')
    → (p' : Process) × (do_sbrk rounds fuel (pos n) p vm ≡ some (p.heap_end, p', vm'))
      × (p'.heap_end ≡ p.heap_end + n)
      × IsHeap p'
do_sbrk-IsHeap rounds fuel n p vm vm' heap room more taken =
    let a = p.heap_end + n in
    let size = page_up (a - p.linear_end) in
    let whole = heap.whole in
    let p' : Process = record p { heap_end = a; linear_end = p.linear_end + size } in
    (
      p',
      sbrk-step rounds fuel a (pos n) p p' vm vm' (moved-up p.heap_end n room) more
          (grow-step rounds fuel size (record p { heap_end = a }) vm vm' refl taken),
      refl,
      record { inside = omega arith; tight = omega arith; whole = omega arith },
    )
