-- ===== src/Frames/Zones.antt =====
-- The three lists of frames together, and what each step of the allocator does to them.
use mjos.Base.{
  ◌≡◌, ap, ◌∙◌, ◌≢◌, [], ◌∷◌, ◌++◌, append-nil, arith, has-append, ◌∈◌, ◌∉◌, Apart, List, ◌+◌,
  length, eq-cases, inl, inr, Distinct-middle, not_mem-append,
}
use mjos.Base.Int.{pos}
use mjos.Frames.{Memory}
use mjos.Pages.{
  PageState, pg_available, pg_kernel, pg_normal, Pfn, Page, nopage, Pages, PageList,
  pglist_push_head, pglist_pop_tail, pglist_remove,
}
use mjos.Pages.Links.{IsQueue, IsPageList, IsQueue-frame, IsPageList-frame}
use mjos.Pages.Push.{push_head-IsQueue, push_head-IsPageList, push_head-frame}
use mjos.Pages.Pop.{pop_tail-IsQueue, pop_tail-frame}
use mjos.Pages.Remove.{remove-IsPageList, remove-frame}

-- the states of a frame on the list of occupied frames
abbrev pub Occupied : PageState → Type 0
Occupied pg_kernel = Unit {0}
Occupied pg_normal = Unit {0}
Occupied _ = ⊥

-- `l` is a queue of available frames.
pub record IsFreeList (m : Pages) (l : PageList) (xs : List Pfn) : Type 0 where
  pub queue : IsQueue m l xs
  pub available : (a : Pfn) → a ∈ xs → (m a).state ≡ pg_available

-- `l` is a list of occupied frames.
pub record IsOccupiedList (m : Pages) (l : PageList) (xs : List Pfn) : Type 0 where
  pub list : IsPageList m l xs
  pub taken : (a : Pfn) → a ∈ xs → Occupied (m a).state

module _ (m m' : Pages) (l : PageList) (xs : List Pfn)
    (same : (a : Pfn) → a ∈ xs → m' a ≡ m a) where
  pub IsFreeList-frame : IsFreeList m l xs → IsFreeList m' l xs
  IsFreeList-frame q = record {
    queue = IsQueue-frame m m' l xs same q.queue;
    available = λ a i. ap (λ (p : Page). p.state) (same a i) ∙ q.available a i;
  }

  pub IsOccupiedList-frame : IsOccupiedList m l xs → IsOccupiedList m' l xs
  IsOccupiedList-frame q = record {
    list = IsPageList-frame m m' l xs same q.list;
    taken = λ a i. rw (same a i) (q.taken a i);
  }

module _ (m : Pages) (l : PageList) (x : Pfn) where
  -- Popping the tail of a free list.
  pub pop-IsFreeList :
      (xs : List Pfn)
      → IsFreeList m l (xs ++ x ∷ [])
      → ((pglist_pop_tail l m).0 ≡ x)
        × IsFreeList (pglist_pop_tail l m).2 (pglist_pop_tail l m).1 xs
        × (((pglist_pop_tail l m).2 x).state ≡ pg_available)
        × ((a : Pfn) → a ≢ x → (pglist_pop_tail l m).2 a ≡ m a)
        × (x ∉ xs)
        × (x ≢ nopage)
  pop-IsFreeList xs q =
      let r = pop_tail-IsQueue m l xs x q.queue in
      let frame = pop_tail-frame m l xs x q.queue in
      (
        r.0,
        record {
          queue = r.1;
          available = λ a i. (frame a).0 ∙ q.available a (rw has-append (ground (arith, i)));
        },
        (frame x).0 ∙ q.available x (rw has-append (ground arith)),
        λ a. (frame a).1,
        rw append-nil at (Distinct-middle x xs [] q.queue.distinct).1,
        ground (arith, not_mem-append nopage xs (x ∷ []) q.queue.pages),
      )

  -- Pushing an available frame on a free list.
  pub push-IsFreeList :
      (xs : List Pfn)
      → x ≢ nopage
      → x ∉ xs
      → (m x).state ≡ pg_available
      → IsFreeList m l xs
      → IsFreeList (pglist_push_head l x m).1 (pglist_push_head l x m).0 (x ∷ xs)
        × ((a : Pfn) → a ∉ x ∷ xs → a ≢ nopage → (pglist_push_head l x m).1 a ≡ m a)
  push-IsFreeList xs n out s q =
      let frame = push_head-frame m l x n xs q.queue in
      (
        record {
          queue = push_head-IsQueue m l x n xs out q.queue;
          available = λ a i. ground (arith, frame a, q.available a);
        },
        λ a. (frame a).1,
      )

  -- Pushing an occupied frame on the list of occupied frames.
  pub push-IsOccupiedList :
      (xs : List Pfn)
      → x ≢ nopage
      → x ∉ xs
      → Occupied (m x).state
      → IsOccupiedList m l xs
      → IsOccupiedList (pglist_push_head l x m).1 (pglist_push_head l x m).0 (x ∷ xs)
        × ((a : Pfn) → a ∉ x ∷ xs → a ≢ nopage → (pglist_push_head l x m).1 a ≡ m a)
  push-IsOccupiedList xs n out s q =
      let frame = push_head-frame m l x n xs q.list.queue in
      (
        record {
          list = push_head-IsPageList m l x n xs out q.list;
          taken = λ a i.
              rw ((frame a).0)
                (elim (eq-cases a x) [ inl e ↦ rw e s | inr k ↦ q.taken a (ground arith) ]);
        },
        λ a. (frame a).1,
      )

  -- Removing a frame from the list of occupied frames.
  pub remove-IsOccupiedList :
      (ys zs : List Pfn)
      → IsOccupiedList m l (ys ++ x ∷ zs)
      → IsOccupiedList (pglist_remove l x m).1 (pglist_remove l x m).0 (ys ++ zs)
        × ((a : Pfn) → a ∉ ys ++ x ∷ zs → a ≢ nopage → (pglist_remove l x m).1 a ≡ m a)
        × (x ∉ ys ++ zs)
        × (x ≢ nopage)
  remove-IsOccupiedList ys zs q =
      let frame = remove-frame m l x ys zs q.list in
      (
        record {
          list = (remove-IsPageList m l x ys zs q.list).0;
          taken = λ a i.
              rw ((frame a).0) (q.taken a (rw has-append (ground (arith, i, has-append a ys zs))));
        },
        λ a. (frame a).1,
        (Distinct-middle x ys zs q.list.queue.distinct).1,
        ground (arith, not_mem-append nopage ys (x ∷ zs) q.list.queue.pages),
      )

-- Available frames on two free lists, occupied ones on a third, and no frame on two of them.
pub record Zones (m : Pages) (f p o : PageList) (fs ms os : List Pfn) : Type 0 where
  pub free : IsFreeList m f fs
  pub map : IsFreeList m p ms
  pub occupied : IsOccupiedList m o os
  pub free_map : Apart fs ms
  pub free_occupied : Apart fs os
  pub map_occupied : Apart ms os

-- A frame that is on none of the lists.
pub record IsLoose (x : Pfn) (fs ms os : List Pfn) : Type 0 where
  pub page : x ≢ nopage
  pub not_free : x ∉ fs
  pub not_map : x ∉ ms
  pub not_occupied : x ∉ os

-- What holds of the allocator between calls: the zones, and counters that count them.
pub record Holds (mem : Memory) (fs ms os : List Pfn) : Type 0 where
  pub zones : Zones mem.pages mem.free mem.map mem.occupied fs ms os
  pub free_cnt : mem.free_cnt ≡ pos (length fs + length ms)
  pub occupied_cnt : mem.occupied_cnt ≡ pos (length os)
