-- ===== src/MemoryMap/Tests.antt =====
-- A memory map of 18 MiB, and the theorem about it.
use mjos.Base.{ℕ, ◌*◌, ◌/◌, ◌≡◌, refl, true, some, List, [], ◌∷◌, arith}
use mjos.Pages.{Pages, pg_reserve, update, pglist_push_head}
use mjos.Frames.{Memory}
use mjos.Frames.Zones.{Holds}
use mjos.EarlyHeap.{EarlyHeap, early_kmalloc, early_kmalloc_depercated, grow, round_up}
use mjos.MemoryMap.{
  Region, reserve, is_dma, is_direct, list_frame, init_frame, init_frames, first_frame, end_frame,
  scan_map, memory_size, page_bytes, no_frames, build_frames,
}
use mjos.MemoryMap.Listed.{add_free}
use mjos.MemoryMap.Scan.{InOrder, free_frames, mapped_frames, build_frames-Holds}

abbrev region : ℕ → ℕ → ℕ → Region
region addr len kind = record { addr = addr; len = len; kind = kind }

-- 639 KiB, the memory of the firmware, and what is left
abbrev regions : List Region
regions =
    region 0 0x9fc00 1
    ∷ region 0x9fc00 0x400 2
    ∷ region 0xf0000 0x10000 2
    ∷ region 0x100000 0x1100000 1
    ∷ []

abbrev garbage : Pages
garbage f = record { state = pg_reserve; next = 5; prev = 6; obj = 7; inuse = 8 }

abbrev heap : EarlyHeap
heap = record { heap_end = 0x1001000; heap_ptr = 0x1000ff0; inited = true; available = true }

abbrev heap_left : EarlyHeap
heap_left = record { heap_end = 0x1013000; heap_ptr = 0x1012ff0; inited = true; available = true }

in_order : InOrder 0 regions
unfolding InOrder
in_order = omega arith

served :
    early_kmalloc 40 (round_up (memory_size regions 0) / 4096 * page_bytes) heap
    ≡ some (some 0x1000ff0, heap_left)
unfolding early_kmalloc memory_size grow
served = refl

-- The map that is left when the last mebibyte but one is all there is: four frames are listed.
four_frames :
    free_frames (region 0x1000000 0x4fff 1 ∷ []) [] ≡ 0x1003 ∷ 0x1002 ∷ 0x1001 ∷ 0x1000 ∷ []
unfolding free_frames add_free
four_frames = refl

-- A frame of memory that the firmware still uses (3) is listed as available.
firmware_memory :
    (scan_map (region 0x1000000 0x1000 3 ∷ []) 0x1000000 (no_frames garbage)).free.head ≡ 0x1000
unfolding scan_map reserve init_frames init_frame first_frame end_frame is_dma is_direct list_frame
    pglist_push_head update
firmware_memory = refl

build_frames-Holds_example :
    (mem : Memory) × (build_frames 40 regions heap garbage
      ≡ some (early_kmalloc_depercated heap_left, mem))
    × Holds mem (free_frames regions []) (mapped_frames regions []) []
build_frames-Holds_example =
    build_frames-Holds 40 regions heap heap_left 0x1000ff0 garbage in_order served
