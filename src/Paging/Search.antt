-- ===== src/Paging/Search.antt =====
-- `find_virtual_addr` of kernel/memory/page.c, with `mk_virtual`, `mk_frame` and the direct map of
-- kernel/include/boot.h. The cursors and the tables of the four levels are functions of the level.
use mjos.Base.{
  ℕ, zero, suc, ◌+◌, ◌-◌, ◌*◌, ◌/◌, ◌%◌, ◌^◌, ◌==◌, ltb, leb, ◌&&◌, ◌||◌, if◌then◌else◌, Bool,
  Option, none, some,
}
use mjos.Paging.{Words, write, virtual, present, pml_offset, kernel_vma}

-- `IS_PHYS_KERNEL`: the mask has the bits from 31 on. `IS_PHYS_DMA` and `IS_PHYS_PCI`.
abbrev pub is_phys_kernel : ℕ → Bool
is_phys_kernel x = x / 2 ^ 31 == 0

abbrev pub is_phys_dma : ℕ → Bool
is_phys_dma x = ltb x (16 * 2 ^ 20)

abbrev pub is_phys_pci : ℕ → Bool
is_phys_pci x = leb 0xbfee0000 x && ltb x (4 * 2 ^ 30)

-- `phys_to_virt`
unfoldable pub phys_to_virt : ℕ → Option ℕ
unfolding virtual
phys_to_virt pa =
    if is_phys_dma pa || is_phys_kernel pa
    then some (virtual pa)
    else if is_phys_pci pa
    then some pa
    else none

-- `mk_virtual` and `mk_frame`
unfoldable pub mk_virtual : (ℕ → ℕ) → ℕ
mk_virtual c = c 4 * 2 ^ 39 + c 3 * 2 ^ 30 + c 2 * 2 ^ 21 + c 1 * 2 ^ 12

unfoldable pub mk_frame : ℕ → ℕ → ℕ
unfolding pml_offset
mk_frame vir level = pml_offset vir level

-- `entry & MMU_ADDR`
unfoldable pub mmu_addr : ℕ → ℕ
mmu_addr e = e % 2 ^ 52 / 4096 * 4096

-- The locals: `level`, `pml_cursor`, and the physical addresses behind `pml_addr`.
pub record Search : Type 0 where
  pub level : ℕ
  pub cursor : ℕ → ℕ
  pub tables : ℕ → ℕ

-- How a part of the search ends: it returns an address or `NULL`, fails the assertion of
-- `phys_to_virt`, or goes on.
pub data Outcome : Type 0 where
  found : ℕ → Outcome
  null failed : Outcome
  on : Search → Outcome

-- A free entry: the address of the cursors.
unfoldable pub hit : Search → Outcome
unfolding mk_virtual
hit s = let a = mk_virtual s.cursor in if ltb a kernel_vma then found a else null

-- the entry at the cursor of a level
abbrev pub entry_at : Words → Search → ℕ → ℕ
entry_at t s level = t (s.tables level + 8 * s.cursor level)

-- the assertion of `phys_to_virt`
abbrev pub through : Option ℕ → Outcome → Outcome
through none rest = failed
through (some v) rest = rest

-- The loop over the upper levels, from level `l + 1` down to 1.
unfoldable pub go_down : ℕ → Words → Search → Outcome
go_down zero t s = on (record s { level = 1 })
go_down (suc l) t s =
    let a = mmu_addr (entry_at t s (suc (suc l))) in
    let down = go_down l t (record s { level = suc l; tables = write s.tables (suc l) a }) in
    if present (entry_at t s (suc (suc l))) then through (phys_to_virt a) down else hit s

-- The loop over the entries of the lowest level, for the number of entries left.
unfoldable pub scan : ℕ → Words → Search → Outcome
scan zero t s = on s
scan (suc n) t s =
    let rest = scan n t (record s { cursor = write s.cursor 1 (s.cursor 1 + 1) }) in
    if present (entry_at t s 1) then rest else hit s

-- the cursors when the one of a level is carried to the next
unfoldable pub carry : ℕ → (ℕ → ℕ) → ℕ → ℕ
carry l c = write (write c l 0) (suc l) (c (suc l) + 1)

-- The loop that carries a cursor at its end to the level above, for the number of levels above `l`.
unfoldable pub climb : ℕ → ℕ → Search → Outcome
climb zero l s = on (record s { level = l })
climb (suc k) l s =
    let c = carry l s.cursor in
    let up = climb k (suc l) (record s { level = suc l; cursor = c }) in
    if s.cursor l == 512
    then (if (suc l == 4) && (c 4 == 512) then null else up)
    else on (record s { level = l })

abbrev pub then_on : Outcome → (Search → Outcome) → Outcome
then_on (found a) rest = found a
then_on null rest = null
then_on failed rest = failed
then_on (on s) rest = rest s

-- One round of the outer loop.
unfoldable pub search_round : Words → Search → Outcome
search_round t s =
    then_on (go_down (s.level - 1) t s)
      λ s1. then_on (scan (512 - s1.cursor 1) t s1) λ s2. climb 3 1 s2

-- the outer loop; with the fuel at its end the search goes on
unfoldable pub search : ℕ → Words → Search → Outcome
search zero t s = on s
search (suc fuel) t s = then_on (search_round t s) (search fuel t)

-- `find_virtual_addr`
unfoldable pub find_virtual_addr : ℕ → Words → ℕ → ℕ → Outcome
find_virtual_addr fuel t pml4 above =
    let start : Search = record { level = 4; cursor = mk_frame above; tables = λ level. pml4 } in
    through (phys_to_virt pml4) (search fuel t start)
