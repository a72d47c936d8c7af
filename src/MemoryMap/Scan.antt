-- ===== src/MemoryMap/Scan.antt =====
-- `page_init` as a whole: what it lists for a memory map, and the allocator's invariant.
use mjos.Base.{
  ℕ, zero, suc, ◌+◌, ◌-◌, ◌*◌, ◌/◌, ◌^◌, ◌≤◌, ◌<◌, ◌≡◌, ◌≢◌, ◌⊎◌, inl, inr, refl, ◌==◌,
  if◌then◌else◌, some, List, [], ◌∷◌, arith,
}
use mjos.Pages.{pg_reserve, Pfn, Pages, nopage, page_list, set_state}
use mjos.Frames.{Memory}
use mjos.Frames.Zones.{Holds, IsFreeList}
use mjos.EarlyHeap.{EarlyHeap, early_kmalloc, early_kmalloc_depercated, round_up}
use mjos.MemoryMap.{
  Region, reserve, hole_rounds, init_frame, init_frames, first_frame, end_frame, scan_map,
  memory_size, page_bytes, no_frames, build_frames,
}
use mjos.MemoryMap.Listed.{
  add_free, add_map, HoldsBelow, loose, update-loose, Below-weaken, reserved-HoldsBelow,
  available-HoldsBelow,
}

weaken :
    (b c : ℕ) (mem : Memory) (fs ms : List Pfn)
    → b ≤ c
    → HoldsBelow b mem fs ms
    → HoldsBelow c mem fs ms
weaken b c mem fs ms h k = record {
  holds = k.holds;
  free_below = Below-weaken b c fs h k.free_below;
  map_below = Below-weaken b c ms h k.map_below;
}

-- The frames of a hole are on no list.
reserve-HoldsBelow :
    (n last_end b : ℕ) (mem : Memory) (fs ms : List Pfn)
    → b ≤ last_end / 4096
    → last_end + n * 4096 < 2 ^ 43 + 4096
    → HoldsBelow b mem fs ms
    → HoldsBelow b (record mem { pages = reserve n last_end mem.pages }) fs ms
unfolding reserve
reserve-HoldsBelow zero last_end b mem fs ms h lim k = k
reserve-HoldsBelow (suc n) last_end b mem fs ms h lim k =
    let i = last_end / 4096 in
    let l = loose b i fs ms k.free_below k.map_below h (omega arith) in
    let set : HoldsBelow b (record mem { pages = set_state mem.pages i pg_reserve }) fs ms =
      record {
        holds = record {
          zones = update-loose mem.pages mem.free mem.map mem.occupied fs ms [] i _ l k.holds.zones;
          free_cnt = k.holds.free_cnt;
          occupied_cnt = k.holds.occupied_cnt;
        };
        free_below = k.free_below;
        map_below = k.map_below;
      } in
    reserve-HoldsBelow n (last_end + 4096) b
      (record mem { pages = set_state mem.pages i pg_reserve }) fs ms (omega arith) (omega arith)
      set

reserved_frames-HoldsBelow :
    (n i b : ℕ) (mem : Memory) (fs ms : List Pfn)
    → b ≤ i
    → i + n ≤ 2 ^ 31 + 1
    → HoldsBelow b mem fs ms
    → HoldsBelow b (init_frames n 2 i mem) fs ms
unfolding init_frames
reserved_frames-HoldsBelow zero i b mem fs ms h lim k = k
reserved_frames-HoldsBelow (suc n) i b mem fs ms h lim k =
    reserved_frames-HoldsBelow n (i + 1) b (init_frame 2 i mem) fs ms (omega arith) (omega arith)
      (reserved-HoldsBelow mem b i fs ms k h (omega arith))

available_frames-HoldsBelow :
    (n i b c : ℕ) (mem : Memory) (fs ms : List Pfn)
    → b ≤ i
    → i + n ≤ 2 ^ 31 + 1
    → b ≤ c
    → (n ≢ 0 → i + n ≤ c)
    → HoldsBelow b mem fs ms
    → HoldsBelow c (init_frames n 1 i mem) (add_free n i fs) (add_map n i ms)
unfolding init_frames add_free add_map
available_frames-HoldsBelow zero i b c mem fs ms h lim hc far k = weaken b c mem fs ms hc k
available_frames-HoldsBelow (suc n) i b c mem fs ms h lim hc far k =
    let end = far (omega arith) in
    available_frames-HoldsBelow n (i + 1) (i + 1) c (init_frame 1 i mem) _ _ (omega arith)
      (omega arith) (omega arith) (λ ne. omega arith)
      (available-HoldsBelow mem b i fs ms k h (omega arith))

-- A memory map whose entries stand in order, do not overlap and are available (1) or reserved (2), below
-- 2 ^ 43.
unfoldable pub InOrder : ℕ → List Region → Type 0
InOrder from [] = Unit {0}
InOrder from (r ∷ rs) =
    (from ≤ r.addr)
    × ((r.kind ≡ 1) ⊎ (r.kind ≡ 2))
    × (r.addr + r.len < 2 ^ 43)
    × InOrder (r.addr + r.len) rs

-- The frames that lie whole in available memory, by list, the last one in front.
unfoldable pub free_frames : List Region → List Pfn → List Pfn
free_frames [] fs = fs
free_frames (r ∷ rs) fs = free_frames rs (
    if r.kind == 1
    then add_free ((r.addr + r.len) / 4096 - (r.addr + 4095) / 4096) ((r.addr + 4095) / 4096) fs
    else fs)

unfoldable pub mapped_frames : List Region → List Pfn → List Pfn
mapped_frames [] ms = ms
mapped_frames (r ∷ rs) ms = mapped_frames rs (
    if r.kind == 1
    then add_map ((r.addr + r.len) / 4096 - (r.addr + 4095) / 4096) ((r.addr + 4095) / 4096) ms
    else ms)

-- One entry of the map.
abbrev scanned : Region → Memory → Memory
scanned r mem = init_frames (end_frame r - first_frame r) r.kind (first_frame r) mem

available-step :
    (r : Region) (b : ℕ) (mem : Memory) (fs ms : List Pfn)
    → r.kind ≡ 1
    → r.addr + r.len < 2 ^ 43
    → b ≤ r.addr / 4096
    → HoldsBelow b mem fs ms
    → HoldsBelow
        ((r.addr + r.len) / 4096)
        (scanned r mem)
        (if r.kind == 1
          then add_free
              ((r.addr + r.len) / 4096 - (r.addr + 4095) / 4096)
              ((r.addr + 4095) / 4096)
              fs
          else fs)
        (if r.kind == 1
          then add_map
              ((r.addr + r.len) / 4096 - (r.addr + 4095) / 4096)
              ((r.addr + 4095) / 4096)
              ms
          else ms)
unfolding first_frame end_frame
available-step r b mem fs ms e lim from k = rw e (
    available_frames-HoldsBelow ((r.addr + r.len) / 4096 - (r.addr + 4095) / 4096)
      ((r.addr + 4095) / 4096) b ((r.addr + r.len) / 4096) mem fs ms (omega arith) (omega arith)
      (omega arith) (λ ne. omega arith) k)

reserved-step :
    (r : Region) (b : ℕ) (mem : Memory) (fs ms : List Pfn)
    → r.kind ≡ 2
    → r.addr + r.len < 2 ^ 43
    → b ≤ r.addr / 4096
    → HoldsBelow b mem fs ms
    → HoldsBelow
        ((r.addr + r.len) / 4096)
        (scanned r mem)
        (if r.kind == 1
          then add_free
              ((r.addr + r.len) / 4096 - (r.addr + 4095) / 4096)
              ((r.addr + 4095) / 4096)
              fs
          else fs)
        (if r.kind == 1
          then add_map
              ((r.addr + r.len) / 4096 - (r.addr + 4095) / 4096)
              ((r.addr + 4095) / 4096)
              ms
          else ms)
unfolding first_frame end_frame
reserved-step r b mem fs ms e lim from k = rw e (
    weaken b ((r.addr + r.len) / 4096) _ fs ms (omega arith) (
      reserved_frames-HoldsBelow ((r.addr + r.len + 4095) / 4096 - r.addr / 4096) (r.addr / 4096) b
        mem fs ms from (omega arith) k))

scan_map-Holds :
    (rs : List Region) (last_end : ℕ) (mem : Memory) (fs ms : List Pfn)
    → last_end < 2 ^ 43
    → InOrder last_end rs
    → HoldsBelow (last_end / 4096) mem fs ms
    → Holds (scan_map rs last_end mem) (free_frames rs fs) (mapped_frames rs ms) []
unfolding scan_map InOrder free_frames mapped_frames
scan_map-Holds [] last_end mem fs ms lim o k = k.holds
scan_map-Holds (r ∷ rs) last_end mem fs ms lim (from, kind, end, rest) k =
    let filled =
      reserve-HoldsBelow (hole_rounds last_end r.addr) last_end (last_end / 4096) mem fs ms
        (omega arith) (omega arith) k in
    let b = last_end / 4096 in
    scan_map-Holds rs (r.addr + r.len) _ _ _ end rest (elim kind [
      | inl e ↦ available-step r b _ fs ms e end (omega arith) filled
      | inr e ↦ reserved-step r b _ fs ms e end (omega arith) filled
    ])

no_list-IsFreeList : (m : Pages) → IsFreeList m (page_list nopage nopage) []
no_list-IsFreeList m = record {
  queue = record { head = refl; tail = refl; backward = tt; distinct = tt; pages = refl };
  available = λ a i. ground (arith, i);
}

no_frames-HoldsBelow : (m : Pages) → HoldsBelow 0 (no_frames m) [] []
no_frames-HoldsBelow m = record {
  holds = record {
    zones = record {
      free = no_list-IsFreeList m;
      map = no_list-IsFreeList m;
      occupied = record {
        list = record { queue = (no_list-IsFreeList m).queue; forward = tt };
        taken = λ a i. ground (arith, i);
      };
      free_map = λ a i. refl;
      free_occupied = λ a i. refl;
      map_occupied = λ a i. refl;
    };
    free_cnt = refl;
    occupied_cnt = refl;
  };
  free_below = λ a i. ground (arith, i);
  map_below = λ a i. ground (arith, i);
}

-- For a memory map whose entries stand in order, do not overlap, are available (1) or reserved (2)
-- and end below 2 ^ 43, and early memory for the table of frames: `page_init` lists exactly the
-- frames that lie whole in available memory, those from 16 MiB to 2 GiB as direct-mapped, those
-- from 4 GiB on that stand in the same place of their 4 GiB as free-mapped, and no others; none is
-- occupied, and the counters and lists are as the frame allocator's invariant says, whatever the
-- table's memory held.
pub build_frames-Holds :
    (fuel : ℕ) (rs : List Region) (heap heap' : EarlyHeap) (page_arr : ℕ) (m : Pages)
    → InOrder 0 rs
    → early_kmalloc fuel (round_up (memory_size rs 0) / 4096 * page_bytes) heap
      ≡ some (some page_arr, heap')
    → (mem : Memory) × (build_frames fuel rs heap m ≡ some (early_kmalloc_depercated heap', mem))
      × Holds mem (free_frames rs []) (mapped_frames rs []) []
unfolding build_frames
build_frames-Holds fuel rs heap heap' page_arr m o early = (
  scan_map rs 0 (no_frames m),
  rw (early, build_frames) refl,
  scan_map-Holds rs 0 (no_frames m) [] [] (omega arith) o (no_frames-HoldsBelow m),
)
