-- ===== src/Frames/Steps.antt =====
-- The steps that `frame_alloc` and `frame_release` are made of, over the three lists.
use mjos.Base.{
  ◌≡◌, List, [], ◌∷◌, ◌++◌, arith, ◌∈◌, has-append, Apart-sym, not_mem-drop, outside, ne_of_mem,
}
use mjos.Pages.{
  PageState, pg_available, Pfn, Pages, PageList, nopage, set_state, pglist_push_head,
  pglist_pop_tail, pglist_remove,
}
use mjos.Pages.Links.{update-ne}
use mjos.Frames.Zones.{
  Zones, IsLoose, Occupied, IsFreeList-frame, IsOccupiedList-frame, pop-IsFreeList, push-IsFreeList,
  push-IsOccupiedList, remove-IsOccupiedList,
}

pub IsLoose-swap : {x : Pfn} {fs ms os : List Pfn} → IsLoose x fs ms os → IsLoose x ms fs os
IsLoose-swap l = record {
  page = l.page;
  not_free = l.not_map;
  not_map = l.not_free;
  not_occupied = l.not_occupied;
}

module _ {m : Pages} {f p o : PageList} where
  -- The two free lists play the same part.
  pub Zones-swap : {fs ms os : List Pfn} → Zones m f p o fs ms os → Zones m p f o ms fs os
  Zones-swap {fs} {ms} z = record {
    free = z.map;
    map = z.free;
    occupied = z.occupied;
    free_map = Apart-sym fs ms z.free_map;
    free_occupied = z.map_occupied;
    map_occupied = z.free_occupied;
  }

  -- Popping the tail of the first free list takes a loose frame that is available.
  pub take_free :
      (fs ms os : List Pfn) (x : Pfn)
      → Zones m f p o (fs ++ x ∷ []) ms os
      → ((pglist_pop_tail f m).0 ≡ x)
        × Zones (pglist_pop_tail f m).2 (pglist_pop_tail f m).1 p o fs ms os
        × (((pglist_pop_tail f m).2 x).state ≡ pg_available)
        × IsLoose x fs ms os
  take_free fs ms os x z =
      let r = pop-IsFreeList m f x fs z.free in
      let m' = (pglist_pop_tail f m).2 in
      let last : x ∈ fs ++ x ∷ [] = rw has-append (ground arith) in
      (
        r.0,
        record {
          free = r.1;
          map =
              IsFreeList-frame m m' p ms (λ a i. r.3 a (ne_of_mem a x ms i (z.free_map x last)))
                z.map;
          occupied =
              IsOccupiedList-frame m m' o os
                (λ a i. r.3 a (ne_of_mem a x os i (z.free_occupied x last))) z.occupied;
          free_map = λ a i. z.free_map a (rw has-append (ground (arith, i)));
          free_occupied = λ a i. z.free_occupied a (rw has-append (ground (arith, i)));
          map_occupied = z.map_occupied;
        },
        r.2,
        record {
          page = r.5;
          not_free = r.4;
          not_map = z.free_map x last;
          not_occupied = z.free_occupied x last;
        },
      )

  -- The state of a loose frame may change.
  pub set_loose :
      {fs ms os : List Pfn} (x : Pfn) (s : PageState)
      → IsLoose x fs ms os
      → Zones m f p o fs ms os
      → Zones (set_state m x s) f p o fs ms os
  set_loose {fs} {ms} {os} x s l z = record {
    free =
        IsFreeList-frame m (set_state m x s) f fs
          (λ a i. update-ne m x _ a (ne_of_mem a x fs i l.not_free)) z.free;
    map =
        IsFreeList-frame m (set_state m x s) p ms
          (λ a i. update-ne m x _ a (ne_of_mem a x ms i l.not_map)) z.map;
    occupied =
        IsOccupiedList-frame m (set_state m x s) o os
          (λ a i. update-ne m x _ a (ne_of_mem a x os i l.not_occupied)) z.occupied;
    free_map = z.free_map;
    free_occupied = z.free_occupied;
    map_occupied = z.map_occupied;
  }

  -- A loose frame in an occupied state goes on the list of occupied frames.
  pub put-Occupied :
      {fs ms os : List Pfn} (x : Pfn)
      → IsLoose x fs ms os
      → Occupied (m x).state
      → Zones m f p o fs ms os
      → Zones (pglist_push_head o x m).1 f p (pglist_push_head o x m).0 fs ms (x ∷ os)
  put-Occupied {fs} {ms} {os} x l s z =
      let r = push-IsOccupiedList m o x os l.page l.not_occupied s z.occupied in
      let m' = (pglist_push_head o x m).1 in
      record {
        free =
            IsFreeList-frame m m' f fs
              (λ a i.
                r.1 a (outside a x fs os i l.not_free z.free_occupied)
                  (ne_of_mem a nopage fs i z.free.queue.pages))
              z.free;
        map =
            IsFreeList-frame m m' p ms
              (λ a i.
                r.1 a (outside a x ms os i l.not_map z.map_occupied)
                  (ne_of_mem a nopage ms i z.map.queue.pages))
              z.map;
        occupied = r.0;
        free_map = z.free_map;
        free_occupied = λ a i. outside a x fs os i l.not_free z.free_occupied;
        map_occupied = λ a i. outside a x ms os i l.not_map z.map_occupied;
      }

  -- A loose frame that is available goes on the first free list.
  pub put_free :
      {fs ms os : List Pfn} (x : Pfn)
      → IsLoose x fs ms os
      → (m x).state ≡ pg_available
      → Zones m f p o fs ms os
      → Zones (pglist_push_head f x m).1 (pglist_push_head f x m).0 p o (x ∷ fs) ms os
  put_free {fs} {ms} {os} x l s z =
      let r = push-IsFreeList m f x fs l.page l.not_free s z.free in
      let m' = (pglist_push_head f x m).1 in
      record {
        free = r.0;
        map =
            IsFreeList-frame m m' p ms
              (λ a i.
                r.1 a (outside a x ms fs i l.not_map (Apart-sym fs ms z.free_map))
                  (ne_of_mem a nopage ms i z.map.queue.pages))
              z.map;
        occupied =
            IsOccupiedList-frame m m' o os
              (λ a i.
                r.1 a (outside a x os fs i l.not_occupied (Apart-sym fs os z.free_occupied))
                  (ne_of_mem a nopage os i z.occupied.list.queue.pages))
              z.occupied;
        free_map = λ a i. ground (arith, z.free_map a, l.not_map);
        free_occupied = λ a i. ground (arith, z.free_occupied a, l.not_occupied);
        map_occupied = z.map_occupied;
      }

  -- A frame that is taken off the list of occupied frames is loose.
  pub drop_occupied :
      (fs ms ys zs : List Pfn) (x : Pfn)
      → Zones m f p o fs ms (ys ++ x ∷ zs)
      → Zones (pglist_remove o x m).1 f p (pglist_remove o x m).0 fs ms (ys ++ zs)
        × IsLoose x fs ms (ys ++ zs)
  drop_occupied fs ms ys zs x z =
      let r = remove-IsOccupiedList m o x ys zs z.occupied in
      let m' = (pglist_remove o x m).1 in
      let here : x ∈ ys ++ x ∷ zs = rw has-append (ground arith) in
      (
        record {
          free =
              IsFreeList-frame m m' f fs
                (λ a i. r.1 a (z.free_occupied a i) (ne_of_mem a nopage fs i z.free.queue.pages))
                z.free;
          map =
              IsFreeList-frame m m' p ms
                (λ a i. r.1 a (z.map_occupied a i) (ne_of_mem a nopage ms i z.map.queue.pages))
                z.map;
          occupied = r.0;
          free_map = z.free_map;
          free_occupied = λ a i. not_mem-drop a x ys zs (z.free_occupied a i);
          map_occupied = λ a i. not_mem-drop a x ys zs (z.map_occupied a i);
        },
        record {
          page = r.3;
          not_free = ground (arith, z.free_occupied x);
          not_map = ground (arith, z.map_occupied x);
          not_occupied = r.2;
        },
      )
