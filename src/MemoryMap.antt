-- ===== src/MemoryMap.antt =====
-- The frames that `page_init` of kernel/memory/page.c finds in the boot loader's memory map. The map is a
-- list of its entries, which the source steps over by their sizes. Addresses have 64 bits and frame
-- numbers fit an `int`; a product of two `int`s wraps around in 32 bits. Log lines are left out.
pub mod Listed
pub mod Scan
mod Tests
use mjos.Base.{
  ℕ, zero, suc, ◌+◌, ◌-◌, ◌*◌, ◌/◌, ◌%◌, ◌^◌, ◌==◌, ltb, leb, ◌||◌, if◌then◌else◌, Bool, true,
  false, Option, none, some, List, [], ◌∷◌,
}
use mjos.Base.Int.{ℤ, pos, inc}
use mjos.Pages.{
  PageState, pg_available, pg_dma, pg_reserve, Pfn, Pages, PageList, page_list, nopage, set_next,
  set_prev, set_state, pglist_push_head,
}
use mjos.Frames.{Memory}
use mjos.EarlyHeap.{EarlyHeap, early_kmalloc, early_kmalloc_depercated, round_up}

-- The fields of `multiboot_memory_map_t` that are read.
pub record Region : Type 0 where
  pub addr : ℕ
  pub len : ℕ
  pub kind : ℕ

-- The loop over a hole in the map, for its number of rounds.
unfoldable pub reserve : ℕ → ℕ → Pages → Pages
reserve zero last_end m = m
reserve (suc n) last_end m = reserve n (last_end + 4096) (set_state m (last_end / 4096) pg_reserve)

abbrev pub hole_rounds : ℕ → ℕ → ℕ
hole_rounds last_end addr = (addr - last_end + 4095) / 4096

-- `i * PAGESIZE < 16 * (1 << 20)`
unfoldable pub is_dma : ℕ → Bool
is_dma i = let w = i * 4096 % 2 ^ 32 in ltb w (2 ^ 24) || leb (2 ^ 31) w

-- `IS_PHYS_KERNEL((u64)i << PAGEOFFSET)`
unfoldable pub is_direct : ℕ → Bool
is_direct i = i * 4096 / 2 ^ 31 == 0

-- A frame that is put on one of the free lists, and counted. (The assertion there follows from the
-- test.)
unfoldable pub list_frame : Pfn → Memory → Memory
list_frame i mem =
    let (l, m) = pglist_push_head mem.free i mem.pages in
    let (l', m') = pglist_push_head mem.map i mem.pages in
    if is_direct i
    then record mem { pages = m; free = l; free_cnt = inc mem.free_cnt }
    else record mem { pages = m'; map = l'; free_cnt = inc mem.free_cnt }

-- The body of the loop over the frames of an entry.
unfoldable pub init_frame : ℕ → Pfn → Memory → Memory
unfolding list_frame
init_frame kind i mem =
    let m = set_prev (set_next mem.pages i nopage) i nopage in
    if kind == 2
    then record mem { pages = set_state m i pg_reserve }
    else if is_dma i
    then record mem { pages = set_state m i pg_dma }
    else list_frame i (record mem { pages = set_state m i pg_available })

-- that loop
unfoldable pub init_frames : ℕ → ℕ → Pfn → Memory → Memory
unfolding init_frame
init_frames zero kind i mem = mem
init_frames (suc n) kind i mem = init_frames n kind (i + 1) (init_frame kind i mem)

-- `frame_start`, and the frame behind the last one: whole pages of available memory, and every page
-- that any other memory touches.
unfoldable pub first_frame : Region → ℕ
first_frame r = if r.kind == 1 then (r.addr + 4095) / 4096 else r.addr / 4096

unfoldable pub end_frame : Region → ℕ
end_frame r = if r.kind == 1 then (r.addr + r.len) / 4096 else (r.addr + r.len + 4095) / 4096

-- The second loop over the map.
unfoldable pub scan_map : List Region → ℕ → Memory → Memory
unfolding reserve init_frames first_frame end_frame
scan_map [] last_end mem = mem
scan_map (r ∷ rs) last_end mem =
    let filled = record mem { pages = reserve (hole_rounds last_end r.addr) last_end mem.pages } in
    scan_map rs (r.addr + r.len)
      (init_frames (end_frame r - first_frame r) r.kind (first_frame r) filled)

-- The first loop: the end of the last entry.
unfoldable pub memory_size : List Region → ℕ → ℕ
memory_size [] size = size
memory_size (r ∷ rs) size = memory_size rs (r.addr + r.len)

-- `sizeof(Page)`
abbrev pub page_bytes : ℕ
page_bytes = 16

-- The static variables as `page_init` sets them; `page_arr` holds what its memory held before.
abbrev pub no_frames : Pages → Memory
no_frames m = record {
  pages = m;
  free = page_list nopage nopage;
  map = page_list nopage nopage;
  occupied = page_list nopage nopage;
  free_cnt = pos 0;
  occupied_cnt = pos 0;
  alloc_cnt = pos 0;
}

-- `page_init` up to its call of `rebuild_kernel_page`; `none` also where it writes through NULL.
unfoldable pub build_frames : ℕ → List Region → EarlyHeap → Pages → Option (EarlyHeap × Memory)
unfolding memory_size scan_map
build_frames fuel regions heap m =
    let frame_cnt = round_up (memory_size regions 0) / 4096 in
    elim (early_kmalloc fuel (frame_cnt * page_bytes) heap) [
      | none ↦ none
      | some (none, heap') ↦ none
      | some (some page_arr, heap') ↦
          some (early_kmalloc_depercated heap', scan_map regions 0 (no_frames m))
    ]
