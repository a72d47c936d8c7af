-- ===== src/Kmalloc/Free.antt =====
-- `kmalloc` and `kfree` together, over the slabs of a class: the object goes back to the slab that it came
-- from.
use mjos.Base.{
  ℕ, ◌+◌, ◌-◌, ◌^◌, ◌<◌, ◌≡◌, ◌≢◌, refl, ap, ◌∙◌, ◌==◌, ==_self, ==_ne, some, List, [], ◌∷◌, ◌∉◌,
  false, ◌&&◌, arith,
}
use mjos.CString.{store}
use mjos.Paging.{virtual}
use mjos.Pages.{Pfn}
use mjos.Pages.Links.{IsPageList}
use mjos.Slab.{Cache, Slabs, pages_of, page_address, many, cache_obj_alloc, cache_obj_release}
use mjos.Slab.Objects.{IsSlab, still_partial, count_behind}
use mjos.Slab.Serve.{again_partial, cache_obj_alloc-HasTaken}
use mjos.Slab.Release.{cache_obj_release-HasPut}
use mjos.Kmalloc.{
  Heap, set_cache, get_kmalloc_cache, alloc_in, kmalloc_s, release_in, kfree_s, set_size,
  with_header, header_of, kmalloc, kfree,
}

kmalloc-step :
    (fuel top size n i ptr back : ℕ) (h h' : Heap)
    → with_header size ≡ n
    → get_kmalloc_cache n ≡ some i
    → alloc_in fuel top i h ≡ some (ptr, h')
    → with_header ptr ≡ back
    → kmalloc fuel top size h ≡ some (back, set_size ptr n h')
unfolding kmalloc kmalloc_s
kmalloc-step fuel top size n i ptr back h h' up class taken up' =
    rw (up, class, taken, up', kmalloc, kmalloc_s) (rw up refl)

kfree-step :
    (fuel top n i ptr back : ℕ) (h : Heap)
    → header_of back ≡ ptr
    → h.sizes ptr ≡ n
    → get_kmalloc_cache n ≡ some i
    → ptr ≢ 0
    → kfree fuel top back h ≡ release_in fuel top i ptr h
unfolding kfree kfree_s
kfree-step fuel top n i ptr back h down size class ne =
    rw (down, size, ==_ne ptr 0 ne, class, kfree, kfree_s) (rw down refl)

set_size-at : (ptr n : ℕ) (h : Heap) → (set_size ptr n h).sizes ptr ≡ n
unfolding set_size store
set_size-at ptr n h = rw (==_self ptr) refl

set_cache_self : (caches : ℕ → Cache) (i : ℕ) (c : Cache) → set_cache caches i c i ≡ c
unfolding set_cache
set_cache_self caches i c = rw (==_self i) refl

alloc-step :
    (fuel top i ptr : ℕ) (h : Heap) (c : Cache) (sys : Slabs)
    → cache_obj_alloc fuel top (h.caches i) h.sys ≡ some (ptr, c, sys)
    → alloc_in fuel top i h ≡ some (ptr, record h { caches = set_cache h.caches i c; sys = sys })
unfolding alloc_in
alloc-step fuel top i ptr h c sys e = rw (e, alloc_in) refl

release-step :
    (fuel top i ptr : ℕ) (h : Heap) (c c' : Cache) (sys : Slabs)
    → h.caches i ≡ c
    → cache_obj_release fuel top c ptr h.sys ≡ some (c', sys)
    → release_in fuel top i ptr h ≡ some (record h { caches = set_cache h.caches i c'; sys = sys })
unfolding release_in
release-step fuel top i ptr h c c' sys at e =
    let found : cache_obj_release fuel top (h.caches i) ptr h.sys ≡ some (c', sys) = rw at e in
    rw (found, release_in) refl

-- A slab whose last object was taken has left the list.
left_list :
    (slab : Pfn) (os : List ℕ) (ps : List Pfn)
    → slab ∉ ps
    → os ≡ []
    → slab ∉ still_partial os slab ps
left_list slab [] ps out e = out
left_list slab (o ∷ os) ps out e = ground (arith, e)

object_address :
    (slab : Pfn) (o : ℕ)
    → slab < 2 ^ 19
    → o < 4088
    → (page_address slab + o ≢ 0) × (page_address slab + o < 2 ^ 64 - 8)
unfolding page_address virtual
object_address slab o low inside = (omega arith, omega arith)

-- For a request of `size` bytes of the class of `size + 8`, where the first slab with free
-- objects of that class is below 2 GiB and its first free object starts below the last 8 bytes
-- of its first page: `kmalloc` returns the place 8 bytes behind the start of that slab's first
-- free object, which is then in use, with `size + 8` in front of it. Unless no object of the
-- slab was in use before and the class then counts five partial slabs or more, `kfree` of what
-- `kmalloc` has returned puts the object back as the first free one of its slab: as many objects
-- are free and in use as before, in the same order, and the slab is on the list of partial
-- slabs, where it was, or at the end if it had no other free object.
pub kmalloc-kfree :
    (fuel top size i o used : ℕ) (h : Heap) (slab : Pfn) (os : List ℕ) (ps : List Pfn)
    → size < 2 ^ 64 - 8
    → slab < 2 ^ 19
    → o < 4088
    → used + 1 < 2 ^ 16
    → get_kmalloc_cache (size + 8) ≡ some i
    → (used + 1 == 1) && many (count_behind os (h.caches i).partial_cnt) ≡ false
    → IsPageList (pages_of h.sys) (h.caches i).partial (slab ∷ ps)
    → IsSlab (pages_of h.sys) h.sys.links slab (o ∷ os) used
    → (h1 : Heap) × (h2 : Heap) × (kmalloc fuel top size h ≡ some (page_address slab + o + 8, h1))
      × (h1.sizes (page_address slab + o) ≡ size + 8)
      × IsSlab (pages_of h1.sys) h1.sys.links slab os (used + 1)
      × (kfree fuel top (page_address slab + o + 8) h1 ≡ some h2)
      × IsSlab (pages_of h2.sys) h2.sys.links slab (o ∷ os) used
      × IsPageList
          (pages_of h2.sys)
          (h2.caches i).partial
          (again_partial os slab (still_partial os slab ps))
unfolding set_size
kmalloc-kfree fuel top size i o used h slab os ps hs low inside small class keep list s =
    let ((ptr, c, sys), served, t) =
      cache_obj_alloc-HasTaken fuel top (h.caches i) h.sys slab o used os ps small list s in
    let object : ptr ≡ page_address slab + o = t.object in
    let (ne, top_free) = object_address slab o low inside in
    let h' : Heap = record h { caches = set_cache h.caches i c; sys = sys } in
    let h1 = set_size (page_address slab + o) (size + 8) h' in
    let served' = served ∙ ap (λ a. some (a, c, sys)) object in
    let again = set_cache_self h.caches i c in
    let counted : (used + 1 == 1) && many c.partial_cnt ≡ false =
      ap (λ n. (used + 1 == 1) && many n) t.count ∙ keep in
    let ((c2, sys2), put, p) =
      cache_obj_release-HasPut fuel top c sys slab o (used + 1) os (still_partial os slab ps) low
        (omega arith) s.distinct.0 (omega arith) small counted
        (left_list slab os ps list.queue.distinct.0) t.partial t.slab_left in
    let one_less : used + 1 - 1 ≡ used = omega arith in
    let back = p.slab_left in
    (
      h1,
      record h1 { caches = set_cache h1.caches i c2; sys = sys2 },
      kmalloc-step fuel top size (size + 8) i (page_address slab + o) (page_address slab + o + 8) h
          h' (omega arith) class (alloc-step fuel top i (page_address slab + o) h c sys served')
          (omega (arith, top_free)),
      set_size-at (page_address slab + o) (size + 8) h',
      t.slab_left,
      kfree-step fuel top (size + 8) i (page_address slab + o) (page_address slab + o + 8) h1
            (omega (arith, top_free)) (set_size-at (page_address slab + o) (size + 8) h') class ne
          ∙ release-step fuel top i (page_address slab + o) h1 c c2 sys2 again put,
      rw one_less at back,
      rw (set_cache_self h1.caches i c2) p.partial,
    )
