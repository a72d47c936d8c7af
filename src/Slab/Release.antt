-- ===== src/Slab/Release.antt =====
-- `cache_obj_release`: an object whose slab is kept, and a slab that is given back while it stays listed.
use mjos.Base.{
  ℕ, ◌+◌, ◌/◌, ◌%◌, ◌^◌, ◌≤◌, ◌<◌, ◌≡◌, refl, ap, ◌∙◌, ◌==◌, true, false, some, ◌&&◌, List, [], ◌∷◌,
  ◌∉◌, arith,
}
use mjos.Pages.{Pfn, nopage}
use mjos.Pages.Links.{IsPageList}
use mjos.Paging.{Vm, virtual, absolute}
use mjos.Paging.Alloc.{kernel_pages_release}
use mjos.Slab.{
  Cache, Slabs, pages_of, calculate_page, page_address, put_object, drop_slab, cache_obj_release,
  many,
}
use mjos.Slab.Objects.{IsSlab}
use mjos.Slab.Serve.{HasPut, put-some, put-first}

page_address-aligned : (slab : Pfn) → page_address slab % 4096 ≡ 0
unfolding page_address virtual
page_address-aligned slab = omega arith

page_address-page :
    (slab : Pfn) (o : ℕ)
    → slab < 2 ^ 19
    → o < 4096
    → absolute (page_address slab + o) / 4096 % 2 ^ 32 ≡ slab
unfolding page_address virtual absolute
page_address-page slab o h k = omega arith

release-kept :
    (fuel top : ℕ) (cache : Cache) (sys : Slabs) (slab : Pfn) (addr : ℕ)
    → absolute addr / 4096 % 2 ^ 32 ≡ slab
    → ((pages_of sys slab).inuse == 1) && many cache.partial_cnt ≡ false
    → cache_obj_release fuel top cache addr sys ≡ some (put_object cache slab addr sys)
unfolding cache_obj_release
release-kept fuel top cache sys slab addr at kept = rw at (rw kept refl)

release-dropped :
    (fuel top : ℕ) (cache : Cache) (sys : Slabs) (slab : Pfn) (addr : ℕ)
    → absolute addr / 4096 % 2 ^ 32 ≡ slab
    → ((pages_of sys slab).inuse == 1) && many cache.partial_cnt ≡ true
    → cache_obj_release fuel top cache addr sys ≡ drop_slab fuel top cache slab sys
unfolding cache_obj_release
release-dropped fuel top cache sys slab addr at last = rw at (rw last refl)

drop-alone :
    (fuel top : ℕ) (cache : Cache) (sys : Slabs) (slab : Pfn) (vm' : Vm)
    → (pages_of sys slab).prev ≡ nopage
    → (pages_of sys slab).next ≡ nopage
    → kernel_pages_release (calculate_page cache.obj_size) fuel top slab sys.vm ≡ some vm'
    → drop_slab fuel top cache slab sys ≡ some (cache, record sys { vm = vm' })
unfolding drop_slab
drop-alone fuel top cache sys slab vm' prev next released =
    rw (prev, next, released, drop_slab) (rw (prev, next) refl)

put-HasPut :
    (cache : Cache) (sys : Slabs) (slab : Pfn) (o used : ℕ) (os : List ℕ) (xs : List Pfn)
    → slab < 2 ^ 19
    → o < 4096
    → o ∉ os
    → 1 ≤ used
    → used < 2 ^ 16
    → (os ≡ [] → slab ∉ xs)
    → IsPageList (pages_of sys) cache.partial xs
    → IsSlab (pages_of sys) sys.links slab os used
    → HasPut slab xs o os used cache (put_object cache slab (page_address slab + o) sys)
put-HasPut cache sys slab o used [] xs low inside out some_used small apart list s =
    put-first cache sys slab o used some_used small inside (page_address-aligned slab) xs
      (apart refl) (omega arith) list s
put-HasPut cache sys slab o used (p ∷ os) xs low inside out some_used small apart list s =
    put-some cache sys slab o used some_used small inside (page_address-aligned slab) p os xs out
      list s

-- An object of a slab below 2 GiB, at an offset in its first page that is not free: unless it is the
-- last object in use of its slab while the cache's counter of partial slabs, which need not be the length
-- of their list, stands at five or more, `cache_obj_release` puts it in front of the free ones,
-- one less is in use, and the slab enters the list, at its end, exactly when it had no free object.
pub cache_obj_release-HasPut :
    (fuel top : ℕ) (cache : Cache) (sys : Slabs) (slab : Pfn) (o used : ℕ) (os : List ℕ)
    (xs : List Pfn)
    → slab < 2 ^ 19
    → o < 4096
    → o ∉ os
    → 1 ≤ used
    → used < 2 ^ 16
    → (used == 1) && many cache.partial_cnt ≡ false
    → (os ≡ [] → slab ∉ xs)
    → IsPageList (pages_of sys) cache.partial xs
    → IsSlab (pages_of sys) sys.links slab os used
    → (r : Cache × Slabs) × (cache_obj_release fuel top cache (page_address slab + o) sys ≡ some r)
      × HasPut slab xs o os used cache r
cache_obj_release-HasPut fuel top cache sys slab o used os xs low inside out some_used small keep
      apart list s =
    let kept : ((pages_of sys slab).inuse == 1) && many cache.partial_cnt ≡ false =
      ap (λ n. (n == 1) && many cache.partial_cnt) s.count ∙ keep in
    (
      put_object cache slab (page_address slab + o) sys,
      release-kept fuel top cache sys slab (page_address slab + o)
          (page_address-page slab o low inside) kept,
      put-HasPut cache sys slab o used os xs low inside out some_used small apart list s,
    )

-- Where a slab is the only one on the list, its last object in use is released and the counter stands at
-- five or more, `cache_obj_release` gives the pages back and leaves the list as it is: its first
-- slab is one whose pages have been released.
pub cache_obj_release-stale :
    (fuel top : ℕ) (cache : Cache) (sys : Slabs) (slab : Pfn) (o : ℕ) (os : List ℕ) (vm' : Vm)
    → slab < 2 ^ 19
    → o < 4096
    → many cache.partial_cnt ≡ true
    → IsPageList (pages_of sys) cache.partial (slab ∷ [])
    → IsSlab (pages_of sys) sys.links slab os 1
    → kernel_pages_release (calculate_page cache.obj_size) fuel top slab sys.vm ≡ some vm'
    → (cache_obj_release fuel top cache (page_address slab + o) sys
        ≡ some (cache, record sys { vm = vm' }))
      × (cache.partial.head ≡ slab)
cache_obj_release-stale fuel top cache sys slab o os vm' low inside enough list s released =
    let last : ((pages_of sys slab).inuse == 1) && many cache.partial_cnt ≡ true =
      ap (λ n. (n == 1) && many cache.partial_cnt) s.count ∙ enough in
    (
      release-dropped fuel top cache sys slab (page_address slab + o)
            (page_address-page slab o low inside) last
          ∙ drop-alone fuel top cache sys slab vm' list.queue.backward.0 list.forward.0 released,
      list.queue.head,
    )
