-- ===== src/Frames.antt =====
-- The frame allocator of kernel/memory/page.c: `frame_alloc`, `frames_alloc`, `frame_release`,
-- `frames_release` and `pglist_free_all` over the three lists of frames. `none` is an assertion
-- that fails. The log lines are not modelled.
pub mod Zones
pub mod Steps
pub mod Alloc
pub mod Release
mod Tests
use mjos.Base.{
  ℕ, zero, suc, ◌+◌, ◌-◌, ◌^◌, ◌==◌, ◌||◌, if◌then◌else◌, Bool, true, false, Option, none, some,
}
use mjos.Base.Int.{ℤ, inc, dec, is_zero}
use mjos.Pages.{
  PageState, pg_available, pg_kernel, pg_dma, pg_reserve, pg_pool, pg_normal, Pfn, nopage, Pages,
  PageList, set_state, pglist_push_head, pglist_pop_head, pglist_pop_tail, pglist_remove,
}

-- The static variables of page.c: `page_arr`, `mem_free_head`, `mem_map_head`,
-- `mem_occupied_head`, `mem_free_cnt`, `mem_occupied_cnt` and `frame_alloc_cnt`.
pub record Memory : Type 0 where
  pub pages : Pages
  pub free : PageList
  pub map : PageList
  pub occupied : PageList
  pub free_cnt : ℤ
  pub occupied_cnt : ℤ
  pub alloc_cnt : ℤ

abbrev pub is_kernel : PageState → Bool
is_kernel pg_kernel = true
is_kernel _ = false

abbrev pub is_normal : PageState → Bool
is_normal pg_normal = true
is_normal _ = false

abbrev pub is_pool : PageState → Bool
is_pool pg_pool = true
is_pool _ = false

abbrev pub is_available : PageState → Bool
is_available pg_available = true
is_available _ = false

-- The part of `frame_alloc` that takes a frame off a list: the direct-mapped one for kernel and
-- pool frames, the free-mapped one for others.
unfoldable pub take_frame : PageState → Memory → Pfn × Memory
take_frame state mem =
    if is_kernel state || is_pool state
    then (let (f, l, m) = pglist_pop_tail mem.free mem.pages in
        (f, record mem { pages = m; free = l }))
    else (let (f, l, m) = pglist_pop_tail mem.map mem.pages in
        (f, record mem { pages = m; map = l }))

-- The part of `frame_alloc` behind its assertions.
unfoldable pub claim : PageState → Pfn → Memory → Memory
claim state f mem =
    let m = set_state mem.pages f state in
    let (l, m') = pglist_push_head mem.occupied f m in
    if is_kernel state || is_normal state
    then record mem {
      pages = m';
      occupied = l;
      free_cnt = dec mem.free_cnt;
      occupied_cnt = inc mem.occupied_cnt;
    }
    else record mem { pages = m; free_cnt = dec mem.free_cnt }

-- `frame_alloc`: frame number 0 where no frame is left.
unfoldable pub frame_alloc : PageState → Memory → Option (Pfn × Memory)
frame_alloc state mem =
    let counted = record mem { alloc_cnt = inc mem.alloc_cnt } in
    let (f, mem') = take_frame state counted in
    if is_zero mem.free_cnt
    then some (0, mem)
    else if is_kernel state || is_normal state || is_pool state
    then (if f == nopage
        then none
        else if is_available (mem'.pages f).state
        then some (f, claim state f mem')
        else none)
    else none

-- The rounds of `while (n--) frame_alloc(state)`.
unfoldable pub alloc_rounds : ℕ → PageState → Memory → Option Memory
alloc_rounds zero state mem = some mem
alloc_rounds (suc n) state mem = elim (frame_alloc state mem) [
  | none ↦ none
  | some (f, mem') ↦ alloc_rounds n state mem'
]

-- `frames_alloc` for `n + 1` frames: the number of the first. (For no frame at all the source's
-- counter passes below zero, and the loop does not end.)
unfoldable pub frames_alloc : ℕ → PageState → Memory → Option (Pfn × Memory)
unfolding alloc_rounds
frames_alloc n state mem = elim (frame_alloc state mem) [
  | none ↦ none
  | some (f, mem') ↦ elim (alloc_rounds n state mem') [ none ↦ none | some mem'' ↦ some (f, mem'') ]
]

-- The branch of `frame_release` that a frame's state chooses.
unfoldable pub give_back : PageState → Pfn → Memory → Memory
give_back pg_kernel f mem =
    let (o, m) = pglist_remove mem.occupied f mem.pages in
    let (l, m') = pglist_push_head mem.free f (set_state m f pg_available) in
    record mem { pages = m'; free = l; occupied = o; occupied_cnt = dec mem.occupied_cnt }
give_back pg_normal f mem =
    let (o, m) = pglist_remove mem.occupied f mem.pages in
    let (l, m') = pglist_push_head mem.map f (set_state m f pg_available) in
    record mem { pages = m'; map = l; occupied = o; occupied_cnt = dec mem.occupied_cnt }
give_back pg_pool f mem =
    let (l, m') = pglist_push_head mem.free f (set_state mem.pages f pg_available) in
    record mem { pages = m'; free = l }
give_back pg_available f mem = mem
give_back pg_dma f mem = mem
give_back pg_reserve f mem = mem

-- `frame_release`
unfoldable pub frame_release : Pfn → Memory → Memory
unfolding give_back
frame_release f mem =
    let mem' = give_back (mem.pages f).state f mem in record mem' { free_cnt = inc mem'.free_cnt }

-- `frames_release`
unfoldable pub frames_release : ℕ → Pfn → Memory → Memory
unfolding frame_release
frames_release zero f mem = mem
frames_release (suc n) f mem = frames_release n (f + 1) (frame_release f mem)

-- `pglist_free_all` on fuel: the list that is left is the caller's.
unfoldable pub pglist_free_all : ℕ → PageList → Memory → Option (PageList × Memory)
pglist_free_all zero l mem = none
pglist_free_all (suc fuel) l mem =
    let (p, l', m) = pglist_pop_head l mem.pages in
    let rest = pglist_free_all fuel l' (frame_release p (record mem { pages = m })) in
    if p == nopage then some (l', mem) else rest
