-- ===== src/EarlyHeap/Tests.antt =====
-- Runs of the early heap, and the theorems about it at a concrete heap.
use mjos.Base.{◌+◌, ◌<◌, ◌≤◌, ◌≡◌, refl, ◌⊎◌, true, false, none, some, arith}
use mjos.EarlyHeap.{
  EarlyHeap, page_size, early_kmalloc_init, early_kmalloc_depercated, early_kmalloc,
}
use mjos.EarlyHeap.Bump.{IsServing, early_kmalloc-IsServing}

abbrev untouched : EarlyHeap
untouched = record { heap_end = 0; heap_ptr = 0; inited = false; available = false }

abbrev heap : EarlyHeap
heap = record { heap_end = 8192; heap_ptr = 5000; inited = true; available = true }

heap_is_set_up : early_kmalloc_init 5000 untouched ≡ heap
unfolding early_kmalloc_init
heap_is_set_up = refl

refused :
    early_kmalloc 1 8 (early_kmalloc_depercated heap) ≡ some (none, early_kmalloc_depercated heap)
unfolding early_kmalloc early_kmalloc_depercated
refused = refl

heap-IsServing : IsServing heap
heap-IsServing = record { inited = refl; available = refl; aligned = refl; room = omega arith }

early_kmalloc-IsServing_example :
    (h' : EarlyHeap) × (early_kmalloc 3 6000 heap ≡ some (some 5000, h'))
    × IsServing h'
    × (h'.heap_ptr ≡ 11000)
    × (h'.heap_ptr < h'.heap_end)
    × ((h'.heap_end ≡ 8192) ⊎ (h'.heap_end ≤ h'.heap_ptr + page_size))
early_kmalloc-IsServing_example =
    early_kmalloc-IsServing heap 6000 2 (omega arith) (omega arith) heap-IsServing
