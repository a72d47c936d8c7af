-- ===== src/Frames/Alloc.antt =====
-- `frame_alloc` of kernel/memory/page.c.
use mjos.Base.{
  suc, ◌+◌, ◌≡◌, refl, ap, ◌∙◌, ◌≢◌, List, [], ◌∷◌, ◌++◌, true, false, ◌||◌, some, none, arith,
  length, length-append,
}
use mjos.Base.Int.{pos, inc, dec, is_zero}
use mjos.Pages.{
  PageState, pg_available, pg_kernel, pg_pool, pg_normal, Pfn, Page, nopage, set_state,
  pglist_pop_tail,
}
use mjos.Pages.Links.{update_self}
use mjos.Pages.Push.{push_head-frame}
use mjos.Frames.{Memory, is_kernel, is_normal, is_pool, take_frame, claim, frame_alloc}
use mjos.Frames.Zones.{Holds, Zones, IsLoose, Occupied}
use mjos.Frames.Steps.{Zones-swap, IsLoose-swap, take_free, set_loose, put-Occupied}

abbrev pub counted : Memory → Memory
counted mem = record mem { alloc_cnt = inc mem.alloc_cnt }

-- the memory that `frame_alloc` leaves when it takes frame `x`
abbrev pub allocated : PageState → Pfn → Memory → Memory
allocated s x mem = claim s x (take_frame s (counted mem)).1

frame_alloc-result :
    (s : PageState) (mem : Memory) (x : Pfn)
    → is_zero mem.free_cnt ≡ false
    → (is_kernel s || is_normal s || is_pool s) ≡ true
    → (take_frame s (counted mem)).0 ≡ x
    → x ≢ nopage
    → ((take_frame s (counted mem)).1.pages x).state ≡ pg_available
    → frame_alloc s mem ≡ some (x, allocated s x mem)
unfolding frame_alloc
frame_alloc-result s mem x z t e n a = ground arith

module _ (mem : Memory) (s : PageState) (x : Pfn) (fs ms os : List Pfn)
    (zones : Zones mem.pages mem.free mem.map mem.occupied fs ms os) (loose : IsLoose x fs ms os)
    (free : mem.free_cnt ≡ pos (suc (length fs + length ms)))
    (taken : mem.occupied_cnt ≡ pos (length os)) where
  claim-Occupied :
      Occupied s
      → (is_kernel s || is_normal s) ≡ true
      → Holds (claim s x mem) fs ms (x ∷ os) × (((claim s x mem).pages x).state ≡ s)
  unfolding claim
  claim-Occupied o t =
      let m = set_state mem.pages x s in
      let state : (m x).state ≡ s = ap (λ (p : Page). p.state) (update_self mem.pages x _) in
      let z = set_loose x s loose zones in
      rw t (
        record {
          zones = put-Occupied x loose (rw state o) z;
          free_cnt = ap dec free;
          occupied_cnt = ap inc taken;
        },
        (push_head-frame m mem.occupied x loose.page os z.occupied.list.queue x).0 ∙ state,
      )

  claim-pool :
      (is_kernel s || is_normal s) ≡ false
      → Holds (claim s x mem) fs ms os × (((claim s x mem).pages x).state ≡ s)
  unfolding claim
  claim-pool t = rw t (
    record { zones = set_loose x s loose zones; free_cnt = ap dec free; occupied_cnt = taken },
    ap (λ (p : Page). p.state) (update_self mem.pages x _),
  )

module _ (mem : Memory) (x : Pfn) (fs ms os : List Pfn) where
  count-free : Holds mem (fs ++ x ∷ []) ms os → mem.free_cnt ≡ pos (suc (length fs + length ms))
  count-free h = h.free_cnt ∙ ap pos (omega (arith, length-append fs (x ∷ [])))

  count-map : Holds mem fs (ms ++ x ∷ []) os → mem.free_cnt ≡ pos (suc (length fs + length ms))
  count-map h = h.free_cnt ∙ ap pos (omega (arith, length-append ms (x ∷ [])))

  -- `frame_alloc(PG_KERNEL)` takes the oldest frame of the direct-mapped list, whatever else the
  -- lists hold: no assertion fails, the frame is on the list of occupied frames afterwards, in
  -- that state, and the lists and counters hold again.
  pub frame_alloc-kernel :
      Holds mem (fs ++ x ∷ []) ms os
      → (frame_alloc pg_kernel mem ≡ some (x, allocated pg_kernel x mem))
        × Holds (allocated pg_kernel x mem) fs ms (x ∷ os)
        × (((allocated pg_kernel x mem).pages x).state ≡ pg_kernel)
  unfolding take_frame
  frame_alloc-kernel h =
      let t = take_free fs ms os x h.zones in
      let c =
        claim-Occupied (take_frame pg_kernel (counted mem)).1 pg_kernel x fs ms os t.1 t.3
          (count-free h) h.occupied_cnt tt refl in
      (frame_alloc-result pg_kernel mem x (rw (count-free h)) refl t.0 t.3.page t.2, c.0, c.1)

  -- `frame_alloc(PG_POOL)` takes the oldest frame of the direct-mapped list, and leaves it on no
  -- list, in that state.
  pub frame_alloc-pool :
      Holds mem (fs ++ x ∷ []) ms os
      → (frame_alloc pg_pool mem ≡ some (x, allocated pg_pool x mem))
        × Holds (allocated pg_pool x mem) fs ms os
        × (((allocated pg_pool x mem).pages x).state ≡ pg_pool)
        × IsLoose x fs ms os
  unfolding take_frame
  frame_alloc-pool h =
      let t = take_free fs ms os x h.zones in
      let c =
        claim-pool (take_frame pg_pool (counted mem)).1 pg_pool x fs ms os t.1 t.3 (count-free h)
          h.occupied_cnt refl in
      (frame_alloc-result pg_pool mem x (rw (count-free h)) refl t.0 t.3.page t.2, c.0, c.1, t.3)

  -- `frame_alloc(PG_NORMAL)` takes the oldest frame of the free-mapped list.
  frame_alloc-normal :
      Holds mem fs (ms ++ x ∷ []) os
      → (frame_alloc pg_normal mem ≡ some (x, allocated pg_normal x mem))
        × Holds (allocated pg_normal x mem) fs ms (x ∷ os)
        × (((allocated pg_normal x mem).pages x).state ≡ pg_normal)
  unfolding take_frame
  frame_alloc-normal h =
      let t = take_free ms fs os x (Zones-swap h.zones) in
      let loose = IsLoose-swap t.3 in
      let c =
        claim-Occupied (take_frame pg_normal (counted mem)).1 pg_normal x fs ms os (Zones-swap t.1)
          loose (count-map h) h.occupied_cnt tt refl in
      (frame_alloc-result pg_normal mem x (rw (count-map h)) refl t.0 loose.page t.2, c.0, c.1)

-- With no frame left at all `frame_alloc` returns frame 0 and changes nothing.
pub frame_alloc-empty :
    (s : PageState) (mem : Memory) → Holds mem [] [] [] → frame_alloc s mem ≡ some (0, mem)
unfolding frame_alloc
frame_alloc-empty s mem h = rw h.free_cnt

-- One counter stands for both free lists: with the direct-mapped list empty and frames on the
-- other, an assertion of `frame_alloc(PG_KERNEL)` fails.
pub frame_alloc-exhausted :
    (mem : Memory) (x : Pfn) (ms os : List Pfn)
    → Holds mem [] (x ∷ ms) os
    → frame_alloc pg_kernel mem ≡ none
unfolding frame_alloc take_frame pglist_pop_tail
frame_alloc-exhausted mem x ms os h = rw (h.free_cnt) (ground (arith, h.zones.free.queue.tail))
