-- ===== src/Paging.antt =====
-- The page tables of kernel/memory/page.c and the address arithmetic of kernel/include/boot.h. The
-- tables are the 64-bit words of physical memory, by their physical address: the kernel reaches a
-- table through the direct map, which puts its words where `VIRTUAL` says. `none` is `die` or an
-- assertion that fails. The log lines are not modelled.
pub mod Entry
pub mod Walk
pub mod Mapping
pub mod Search
pub mod Cursor
pub mod Trail
pub mod Unmapped
pub mod First
pub mod Alloc
pub mod Kernel
pub mod Sbrk
mod Tests
use Prim.Native.Nat.{bit_or}
use mjos.Base.{
  ℕ, zero, suc, ◌+◌, ◌-◌, ◌*◌, ◌/◌, ◌%◌, ◌^◌, ◌==◌, ltb, leb, not, ◌&&◌, if◌then◌else◌, Bool, true,
  false, Option, none, some,
}
use mjos.Pages.{pg_kernel}
use mjos.Frames.{Memory, frame_alloc}

abbrev pub Words : Type 0
Words = ℕ → ℕ

unfoldable pub write : Words → ℕ → ℕ → Words
write t a v b = if b == a then v else t b

-- `KERNEL_VMA` and `KERNEL_LMA`
abbrev pub kernel_vma : ℕ
kernel_vma = 0xffffffff81000000

abbrev pub kernel_lma : ℕ
kernel_lma = 0x1000000

-- `VIRTUAL` and `ABSOLUTE`, in 64 bits
unfoldable pub virtual : ℕ → ℕ
virtual x = (x + (kernel_vma - kernel_lma)) % 2 ^ 64

unfoldable pub absolute : ℕ → ℕ
absolute x = (x + (2 ^ 64 - kernel_vma) + kernel_lma) % 2 ^ 64

-- `PRESENT`, `PTENTRYADDR` and `PMLOFFSET`
unfoldable pub present : ℕ → Bool
present e = e % 2 == 1

unfoldable pub entry_addr : ℕ → ℕ
entry_addr e = e / 4096 * 4096

unfoldable pub pml_offset : ℕ → ℕ → ℕ
pml_offset x n = x / 2 ^ ((n - 1) * 9 + 12) % 512

-- the address of the word that a table has for a virtual address at a level
unfoldable pub slot : ℕ → ℕ → ℕ → ℕ
unfolding pml_offset
slot pml vir level = pml + 8 * pml_offset vir level

-- the loop of `page_translate`
unfoldable pub translate_from : ℕ → Words → ℕ → ℕ → Option ℕ
unfolding slot present entry_addr
translate_from zero t pml vir = some (bit_or pml (vir % 4096))
translate_from (suc level) t pml vir =
    let e = t (slot pml vir (suc level)) in
    let rest = translate_from level t (entry_addr e) vir in if present e then rest else none

-- `page_translate`
unfoldable pub page_translate : Words → ℕ → ℕ → Option ℕ
unfolding translate_from
page_translate t pml vir = translate_from 4 t pml vir

-- What `page_table_set_entry` changes: the frames, the words of the tables, and `heap_end`.
pub record Vm : Type 0 where
  pub frames : Memory
  pub words : Words
  pub heap_end : ℕ

-- The flags of a table that is put in: `MMU_P | MMU_US | MMU_RW | MMU_PCD | MMU_PWT`.
abbrev pub table_flags : ℕ
table_flags = 31

-- The entry for a new table: a frame number has 32 bits, and so has what it is shifted to.
unfoldable pub table_entry : ℕ → ℕ
table_entry f = bit_or (f * 4096 % 2 ^ 32) table_flags

-- The word that `page_table_set_entry` writes: `value | MMU_PCD | MMU_PWT`.
unfoldable pub uncached : ℕ → ℕ
uncached value = bit_or (bit_or value 16) 8

-- the write at the end of `page_table_set_entry`
unfoldable pub put_entry : ℕ → ℕ → ℕ → Vm → Vm
unfolding write slot uncached
put_entry pml address value vm = record vm {
  words = write vm.words (slot pml address 1) (uncached value);
}

-- The part of `page_table_set_entry` that puts in a new table for the entry at the address `at`:
-- the entry, and the state when the new table is mapped. `again` maps it, for which the function calls
-- itself.
unfoldable pub add_table : (ℕ → ℕ → Vm → Option Vm) → ℕ → Vm → Option (ℕ × Vm)
unfolding write table_entry virtual
add_table again at vm = elim (frame_alloc pg_kernel vm.frames) [
  | none ↦ none
  | some (f, frames') ↦
      let e = table_entry f in
      let put_in = record vm { frames = frames'; words = write vm.words at e } in
      elim (again (virtual e) e put_in) [
        | none ↦ none
        | some vm' ↦ some (e, record vm' { heap_end = (vm'.heap_end + 4096) % 2 ^ 64 })
      ]
]

-- The loop of `page_table_set_entry`, with `level + 1` levels to go.
unfoldable pub descend : (ℕ → ℕ → Vm → Option Vm) → Bool → ℕ → ℕ → ℕ → ℕ → Vm → Option Vm
unfolding put_entry
descend again auto_alloc zero pml address value vm = some (put_entry pml address value vm)
descend again auto_alloc (suc level) pml address value vm =
    let at = slot pml address (suc (suc level)) in
    let down = descend again auto_alloc level (entry_addr (vm.words at)) address value vm in
    if present (vm.words at)
    then down
    else if not auto_alloc
    then some vm
    else elim (add_table again at vm) [
      | none ↦ none
      | some (e, vm') ↦ descend again auto_alloc level (entry_addr e) address value vm'
    ]

-- `page_table_set_entry`, with fuel for the calls of itself
unfoldable pub page_table_set_entry : ℕ → ℕ → ℕ → ℕ → Bool → Vm → Option Vm
unfolding descend
page_table_set_entry zero pmltop address value auto_alloc vm = none
page_table_set_entry (suc fuel) pmltop address value auto_alloc vm =
    descend (λ table e vm'. page_table_set_entry fuel pmltop table e true vm') auto_alloc 3 pmltop
      address value vm
