-- ===== src/Paging/Alloc.antt =====
-- The pages of kernel/memory/page.c behind the frame allocator: `kernel_pages_alloc` to
-- `normal_page_release`, and `virt_to_phys` of kernel/include/boot.h. `none` is an assertion that
-- fails, `die`, or fuel that has run out.
use Prim.Native.Nat.{bit_or}
use mjos.Base.{
  ℕ, zero, suc, ◌+◌, ◌-◌, ◌*◌, ◌/◌, ◌%◌, ◌^◌, leb, not, ◌||◌, if◌then◌else◌, true, false, Option,
  none, some,
}
use mjos.Pages.{PageState, pg_normal, Pfn}
use mjos.Frames.{frame_alloc, frame_release, is_kernel, is_pool}
use mjos.Paging.{
  Words, Vm, virtual, absolute, page_translate, page_table_set_entry, kernel_vma, kernel_lma,
}
use mjos.Paging.Search.{Outcome, found, null, failed, on, find_virtual_addr, is_phys_pci}

-- `virt_to_phys`, with the tables of the current process
unfoldable pub virt_to_phys : Words → ℕ → ℕ → Option ℕ
unfolding absolute
virt_to_phys t cr3 v =
    if leb kernel_vma v
    then some (absolute v)
    else if leb (kernel_vma - kernel_lma) v
    then some (absolute v)
    else if is_phys_pci v
    then some v
    else page_translate t cr3 v

-- One page of `kernel_pages_alloc`: a frame, and its entry in the kernel's page table. The address of
-- the frame is shifted in 32 bits.
unfoldable pub add_kernel_page : ℕ → PageState → ℕ → Vm → Option (Pfn × Vm)
add_kernel_page fuel state kernel_pml4 vm = elim (frame_alloc state vm.frames) [
  | none ↦ none
  | some (f, frames') ↦
      let psys = f * 4096 % 2 ^ 32 in
      let taken = record vm { frames = frames' } in
      elim (page_table_set_entry fuel kernel_pml4 (virtual psys) (psys + 7) true taken) [
        | none ↦ none
        | some vm' ↦ some (f, vm')
      ]
]

-- `while (n--)` of `kernel_pages_alloc`
unfoldable pub kernel_rounds : ℕ → ℕ → PageState → ℕ → Vm → Option Vm
kernel_rounds zero fuel state kernel_pml4 vm = some vm
kernel_rounds (suc n) fuel state kernel_pml4 vm = elim (add_kernel_page fuel state kernel_pml4 vm) [
  | none ↦ none
  | some (f, vm') ↦ kernel_rounds n fuel state kernel_pml4 vm'
]

-- `kernel_pages_alloc` for `n + 1` pages: the number of the first frame. (For no page at all the
-- source's counter passes below zero.)
unfoldable pub kernel_pages_alloc : ℕ → ℕ → PageState → ℕ → Vm → Option (Pfn × Vm)
kernel_pages_alloc n fuel state kernel_pml4 vm =
    if not (is_kernel state || is_pool state)
    then none
    else elim (add_kernel_page fuel state kernel_pml4 vm) [
      | none ↦ none
      | some (f, vm') ↦ elim (kernel_rounds n fuel state kernel_pml4 vm') [
        | none ↦ none
        | some vm'' ↦ some (f, vm'')
      ]
    ]

-- `kernel_pages_release`
unfoldable pub kernel_pages_release : ℕ → ℕ → ℕ → Pfn → Vm → Option Vm
kernel_pages_release zero fuel kernel_pml4 page vm = some vm
kernel_pages_release (suc n) fuel kernel_pml4 page vm =
    let released = record vm { frames = frame_release page vm.frames } in
    elim (page_table_set_entry fuel kernel_pml4 (virtual (page * 4096 % 2 ^ 32)) 0 false released) [
      | none ↦ none
      | some vm' ↦ kernel_pages_release n fuel kernel_pml4 ((page + 1) % 2 ^ 32) vm'
    ]

-- `kernel_page_alloc` and `kernel_page_release`
unfoldable pub kernel_page_alloc : ℕ → PageState → ℕ → Vm → Option (Pfn × Vm)
kernel_page_alloc fuel state kernel_pml4 vm = kernel_pages_alloc 0 fuel state kernel_pml4 vm

unfoldable pub kernel_page_release : ℕ → ℕ → Pfn → Vm → Option Vm
kernel_page_release fuel kernel_pml4 page vm = kernel_pages_release 1 fuel kernel_pml4 page vm

-- The pointer that `find_virtual_addr` returns.
abbrev pub pointer : Outcome → Option ℕ
pointer (found a) = some a
pointer null = some 0
pointer failed = none
pointer (on s) = none

-- A frame of `PG_NORMAL` at a virtual address: `MMU_P | MMU_RW | MMU_US`.
unfoldable pub add_normal_page : ℕ → ℕ → ℕ → Vm → Option (Pfn × Vm)
add_normal_page fuel pml4 vir vm = elim (frame_alloc pg_normal vm.frames) [
  | none ↦ none
  | some (f, frames') ↦
      let taken = record vm { frames = frames' } in
      elim (page_table_set_entry fuel pml4 vir (bit_or (f * 4096) 7) true taken) [
        | none ↦ none
        | some vm' ↦ some (f, vm')
      ]
]

-- `normal_page_alloc`: the address and, for `pn`, the frame. (The frame is allocated before the search,
-- which does not read the frames.)
unfoldable pub normal_page_alloc : ℕ → ℕ → ℕ → ℕ → Vm → Option (ℕ × Pfn × Vm)
normal_page_alloc rounds fuel pml4 above vm =
    elim (pointer (find_virtual_addr rounds vm.words pml4 above)) [
      | none ↦ none
      | some vir ↦ elim (add_normal_page fuel pml4 vir vm) [
        | none ↦ none
        | some (f, vm') ↦ some (vir, f, vm')
      ]
    ]

-- `while (n--)` of `normal_pages_alloc`
unfoldable pub normal_rounds : ℕ → ℕ → ℕ → ℕ → Vm → Option Vm
normal_rounds zero fuel pml4 vir vm = some vm
normal_rounds (suc n) fuel pml4 vir vm = elim (add_normal_page fuel pml4 vir vm) [
  | none ↦ none
  | some (f, vm') ↦ normal_rounds n fuel pml4 (vir + 4096) vm'
]

-- `normal_pages_alloc`: one search, for the first page, and the pages from there on.
unfoldable pub normal_pages_alloc : ℕ → ℕ → ℕ → ℕ → ℕ → Vm → Option (ℕ × Vm)
normal_pages_alloc rounds fuel pml4 above n vm =
    elim (pointer (find_virtual_addr rounds vm.words pml4 above)) [
      | none ↦ none
      | some vir ↦ elim (normal_rounds n fuel pml4 vir vm) [
        | none ↦ none
        | some vm' ↦ some (vir, vm')
      ]
    ]

-- `normal_page_release`: the frame is that of the current process' tables, `cr3`.
unfoldable pub normal_page_release : ℕ → ℕ → ℕ → ℕ → Vm → Option Vm
normal_page_release fuel cr3 address pml4 vm = elim (virt_to_phys vm.words cr3 address) [
  | none ↦ none
  | some pa ↦ elim (page_table_set_entry fuel pml4 address 0 false vm) [
    | none ↦ none
    | some vm' ↦ some (record vm' { frames = frame_release (pa / 4096 % 2 ^ 32) vm'.frames })
  ]
]

-- `normal_pages_release`
unfoldable pub normal_pages_release : ℕ → ℕ → ℕ → ℕ → ℕ → Vm → Option Vm
normal_pages_release zero fuel cr3 address pml4 vm = some vm
normal_pages_release (suc n) fuel cr3 address pml4 vm =
    elim (normal_page_release fuel cr3 address pml4 vm) [
      | none ↦ none
      | some vm' ↦ normal_pages_release n fuel cr3 (address + 4096) pml4 vm'
    ]
