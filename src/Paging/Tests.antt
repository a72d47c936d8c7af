-- ===== src/Paging/Tests.antt =====
-- Page tables with one page, and the theorems about them at that page.
use mjos.Base.{
  ℕ, ◌+◌, ◌^◌, ◌<◌, ◌≡◌, ◌≢◌, inr, refl, ◌==◌, if◌then◌else◌, true, false, Option, none, some, ◌∉◌,
  arith,
}
use mjos.Base.Int.{pos}
use mjos.Pages.{
  nopage, page_list, pg_available, pg_kernel, pg_reserve, Pfn, pglist_pop_tail, pglist_push_head,
  update, pglist_is_empty,
}
use mjos.Frames.{Memory, frame_alloc, take_frame, claim, frame_release}
use mjos.Paging.{
  Words, Vm, write, virtual, present, entry_addr, pml_offset, slot, page_translate, translate_from,
  page_table_set_entry, descend,
}
use mjos.Paging.Walk.{leaf, upper, has_tables}
use mjos.Paging.Mapping.{page_translate-set_entry, page_translate-other}
use mjos.Paging.Search.{
  found, phys_to_virt, find_virtual_addr, search, search_round, go_down, scan, climb, carry, hit,
  mk_virtual, mk_frame, mmu_addr,
}
use mjos.Paging.First.{IsFirst, find_virtual_addr-IsFirst}
use mjos.Paging.Alloc.{
  virt_to_phys, kernel_page_alloc, kernel_page_release, normal_pages_alloc, normal_rounds,
  add_normal_page,
}
use mjos.Paging.Sbrk.{Process, IsHeap, do_sbrk, do_sbrk-IsHeap}
use mjos.Paging.Kernel.{
  phys_to_virt-virt_to_phys, kernel_page_alloc-maps, kernel_page_release-unmaps,
}

-- Four tables, and the page of frame 8 at its address in the direct map.
abbrev words : Words
words =
    write (write (write (write (λ a. 0) 0x1ff8 0x2001) 0x2ff0 0x3001) 0x3000 0x4001) 0x4040 0x8007

-- frame 8 alone is free
abbrev frames : Memory
frames = record {
  pages = λ f. record {
    next = nopage;
    prev = nopage;
    state = if f == 8 then pg_available else pg_reserve;
    obj = 0;
    inuse = 0;
  };
  free = page_list 8 8;
  map = page_list nopage nopage;
  occupied = page_list nopage nopage;
  free_cnt = pos 1;
  occupied_cnt = pos 0;
  alloc_cnt = pos 0;
}

abbrev vm : Vm
vm = record { frames = frames; words = words; heap_end = 0xffffffff82000000 }

abbrev page : ℕ
page = 0xffffffff80008000

translated : page_translate words 0x1000 (page + 5) ≡ some 0x8005
unfolding page_translate translate_from slot pml_offset present entry_addr write
translated = refl

-- the page behind the one that is mapped
searched : find_virtual_addr 3 words 0x1000 0xffff80008000 ≡ found 0xffff80009000
unfolding find_virtual_addr search search_round go_down scan climb carry hit mk_virtual mk_frame
    mmu_addr phys_to_virt present write pml_offset virtual
searched = refl

tables : has_tables 3 words 0x1000 page ≡ true
unfolding has_tables slot pml_offset present entry_addr write
tables = refl

last : leaf 3 words 0x1000 page ≡ 0x4000
unfolding leaf slot pml_offset present entry_addr write
last = refl

above_last : leaf 3 words 0x1000 page ∉ upper 3 words 0x1000 page
unfolding leaf upper slot pml_offset present entry_addr write
above_last = refl

above_next : leaf 3 words 0x1000 page ∉ upper 3 words 0x1000 (page + 4096)
unfolding leaf upper slot pml_offset present entry_addr write
above_next = refl

other_entry : pml_offset page 1 ≢ pml_offset (page + 4096) 1
unfolding pml_offset
other_entry = omega arith

no_table : has_tables 3 words 0x1000 0 ≡ false
unfolding has_tables slot pml_offset present entry_addr write
no_table = refl

small : (a : ℕ) → words a < 2 ^ 52
unfolding write
small a = ground arith

mapped : phys_to_virt 0x8000 ≡ some page
unfolding phys_to_virt virtual
mapped = refl

direct : phys_to_virt 0x1000 ≢ none
unfolding phys_to_virt virtual
direct = ground arith

abbrev left : Option (Pfn × Memory) → Memory
left none = frames
left (some (f, m)) = m

taken : frame_alloc pg_kernel frames ≡ some (8, left (frame_alloc pg_kernel frames))
unfolding frame_alloc take_frame claim pglist_pop_tail pglist_push_head update pglist_is_empty
taken = refl

tables_at : has_tables 3 words 0x1000 (virtual 0x8000) ≡ true
unfolding has_tables slot pml_offset present entry_addr write virtual
tables_at = refl

above_at : leaf 3 words 0x1000 (virtual 0x8000) ∉ upper 3 words 0x1000 (virtual 0x8000)
unfolding leaf upper slot pml_offset present entry_addr write virtual
above_at = refl

page_translate-set_entry_example :
    (vm' : Vm) × (page_table_set_entry 1 0x1000 page 0x9001 false vm ≡ some vm')
    × (page_translate vm'.words 0x1000 (page + 5) ≡ some 0x9005)
unfolding present entry_addr
page_translate-set_entry_example =
    page_translate-set_entry 0 0x1000 page (page + 5) 0x9001 false vm refl tables above_last
      (omega arith)

-- the next page of the same table
page_translate-other_example :
    (vm' : Vm) × (page_table_set_entry 1 0x1000 page 0 false vm ≡ some vm')
    × (page_translate vm'.words 0x1000 (page + 4096) ≡ page_translate words 0x1000 (page + 4096))
page_translate-other_example =
    page_translate-other 0 0x1000 page 0 0x1000 (page + 4096) false vm refl refl tables above_next
      (inr other_entry)

find_virtual_addr-IsFirst_example :
    IsFirst words 0x1000 0xffff80008 (find_virtual_addr (2 ^ 36) words 0x1000 0xffff80008000)
find_virtual_addr-IsFirst_example =
    find_virtual_addr-IsFirst (2 ^ 36) words 0x1000 0xffff80008000 (omega arith) small direct

phys_to_virt-virt_to_phys_example : virt_to_phys words 0x1000 page ≡ some 0x8000
phys_to_virt-virt_to_phys_example = phys_to_virt-virt_to_phys words 0x1000 0x8000 page mapped

kernel_page_alloc-maps_example :
    (vm' : Vm) × (kernel_page_alloc 1 pg_kernel 0x1000 vm ≡ some (8, vm'))
    × (vm'.frames ≡ left (frame_alloc pg_kernel frames))
    × (page_translate vm'.words 0x1000 (virtual 0x8000) ≡ some 0x8000)
kernel_page_alloc-maps_example =
    kernel_page_alloc-maps 0 8 0x1000 pg_kernel (left (frame_alloc pg_kernel frames)) vm refl taken
      (omega arith) refl tables_at above_at

kernel_page_release-unmaps_example :
    (vm' : Vm) × (kernel_page_release 1 0x1000 8 vm ≡ some vm')
    × (vm'.frames ≡ frame_release 8 frames)
    × (page_translate vm'.words 0x1000 (virtual 0x8000) ≡ none)
kernel_page_release-unmaps_example =
    kernel_page_release-unmaps 0 8 0x1000 vm (omega arith) refl tables_at above_at

-- Three tables for the lowest addresses, whose entries are free, and a process with a heap there.
abbrev low_words : Words
low_words = write (write (write (λ a. 0) 0x1000 0x2001) 0x2000 0x3001) 0x3000 0x4001

abbrev low : Vm
low = record {
  frames = record frames { free = page_list nopage nopage; map = page_list 8 8 };
  words = low_words;
  heap_end = 0;
}

abbrev process : Process
process = record { heap_end = 0x5ff8; linear_end = 0x6000; cr3 = 0x1000 }

abbrev grown : Option (ℕ × Vm) → Vm
grown none = low
grown (some (a, m)) = m

abbrev larger : Vm
larger = grown (normal_pages_alloc 2 1 0x1000 0x6000 1 low)

one_page : normal_pages_alloc 2 1 0x1000 0x6000 1 low ≡ some (0x6000, larger)
unfolding normal_pages_alloc normal_rounds add_normal_page find_virtual_addr search search_round
    go_down scan climb carry hit mk_virtual mk_frame mmu_addr phys_to_virt present write pml_offset
    virtual frame_alloc take_frame claim pglist_pop_tail pglist_push_head update pglist_is_empty
    page_table_set_entry descend slot entry_addr
one_page = refl

process-IsHeap : IsHeap process
process-IsHeap = record { inside = omega arith; tight = omega arith; whole = refl }

do_sbrk-IsHeap_example :
    (p : Process) × (do_sbrk 2 1 (pos 16) process low ≡ some (0x5ff8, p, larger))
    × (p.heap_end ≡ 0x6008)
    × IsHeap p
do_sbrk-IsHeap_example =
    do_sbrk-IsHeap 2 1 16 process low larger process-IsHeap (omega arith) (omega arith) one_page
