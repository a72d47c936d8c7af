-- ===== src/Frames/Tests.antt =====
-- The theorems on page lists and frames at a small memory.
use mjos.Base.{◌≡◌, refl, [], ◌∷◌, some, arith, ◌==◌, if◌then◌else◌}
use mjos.Base.Int.{pos}
use mjos.Pages.{
  PageState, pg_available, pg_kernel, pg_normal, pg_pool, pg_dma, Pfn, Page, Pages, page_list,
  nopage, pglist_remove,
}
use mjos.Pages.Links.{IsPageList}
use mjos.Frames.{Memory, frame_alloc, frame_release}
use mjos.Frames.Zones.{Holds}
use mjos.Frames.Alloc.{allocated, frame_alloc-kernel}
use mjos.Pages.Remove.{remove-IsPageList}
use mjos.Frames.Release.{frame_release-kernel}

abbrev frame : PageState → Pfn → Pfn → Page
frame s n p = record { state = s; next = n; prev = p; obj = 0; inuse = 0 }

-- 4 and 5 are free and direct-mapped, 7 is free-mapped, 8 and 9 are occupied, 3 is in a pool.
abbrev pages : Pages
pages p =
    if p == 4
    then frame pg_available 5 nopage
    else if p == 5
    then frame pg_available nopage 4
    else if p == 7
    then frame pg_available nopage nopage
    else if p == 8
    then frame pg_kernel 9 nopage
    else if p == 9
    then frame pg_normal nopage 8
    else if p == 3
    then frame pg_pool nopage nopage
    else frame pg_dma nopage nopage

abbrev memory : Memory
memory = record {
  pages = pages;
  free = page_list 4 5;
  map = page_list 7 7;
  occupied = page_list 8 9;
  free_cnt = pos 3;
  occupied_cnt = pos 2;
  alloc_cnt = pos 0;
}

free-IsPageList : IsPageList pages (page_list 4 5) (4 ∷ 5 ∷ [])
free-IsPageList = record {
  queue = record {
    head = refl;
    tail = refl;
    backward = (refl, (refl, tt));
    distinct = (refl, (refl, tt));
    pages = refl;
  };
  forward = (refl, (refl, tt));
}

memory-Holds : Holds memory (4 ∷ 5 ∷ []) (7 ∷ []) (8 ∷ 9 ∷ [])
memory-Holds = record {
  zones = record {
    free = record { queue = free-IsPageList.queue; available = ground arith };
    map = record {
      queue = record {
        head = refl;
        tail = refl;
        backward = (refl, tt);
        distinct = (refl, tt);
        pages = refl;
      };
      available = ground arith;
    };
    occupied = record {
      list = record {
        queue = record {
          head = refl;
          tail = refl;
          backward = (refl, (refl, tt));
          distinct = (refl, (refl, tt));
          pages = refl;
        };
        forward = (refl, (refl, tt));
      };
      taken = ground arith;
    };
    free_map = ground arith;
    free_occupied = ground arith;
    map_occupied = ground arith;
  };
  free_cnt = refl;
  occupied_cnt = refl;
}

frame_alloc-kernel_example :
    (frame_alloc pg_kernel memory ≡ some (5, allocated pg_kernel 5 memory))
    × Holds (allocated pg_kernel 5 memory) (4 ∷ []) (7 ∷ []) (5 ∷ 8 ∷ 9 ∷ [])
    × (((allocated pg_kernel 5 memory).pages 5).state ≡ pg_kernel)
frame_alloc-kernel_example = frame_alloc-kernel memory 5 (4 ∷ []) (7 ∷ []) (8 ∷ 9 ∷ []) memory-Holds

frame_release-kernel_example : Holds (frame_release 8 memory) (8 ∷ 4 ∷ 5 ∷ []) (7 ∷ []) (9 ∷ [])
frame_release-kernel_example =
    frame_release-kernel memory 8 (4 ∷ 5 ∷ []) (7 ∷ []) [] (9 ∷ []) memory-Holds refl

-- With frame 7 alone left.
abbrev last_frame : Memory
last_frame = record memory { free = page_list nopage nopage; free_cnt = pos 1 }

last_frame-Holds : Holds last_frame [] (7 ∷ []) (8 ∷ 9 ∷ [])
last_frame-Holds = record {
  zones = record {
    free = record {
      queue = record { head = refl; tail = refl; backward = tt; distinct = tt; pages = refl };
      available = λ a i. cc;
    };
    map = memory-Holds.zones.map;
    occupied = memory-Holds.zones.occupied;
    free_map = λ a i. cc;
    free_occupied = λ a i. cc;
    map_occupied = memory-Holds.zones.map_occupied;
  };
  free_cnt = refl;
  occupied_cnt = refl;
}

remove-IsPageList_example :
    let (l, m) = pglist_remove (page_list 4 5) 4 pages in
    IsPageList m l (5 ∷ []) × ((m 4).prev ≡ nopage) × ((m 4).next ≡ nopage)
remove-IsPageList_example = remove-IsPageList pages (page_list 4 5) 4 [] (5 ∷ []) free-IsPageList
