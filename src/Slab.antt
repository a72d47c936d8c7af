-- ===== src/Slab.antt =====
-- The slab allocator of kernel/memory/slab.c over the page frames of kernel/memory/page.c. A slab is one
-- or more pages; `obj` and `inuse` of its first page are the offset of its first free object and the
-- number of objects in use. The first two bytes of a free object hold the offset of the next one: `links` has
-- them by their virtual address, apart from the words of the page tables, which slabs do not share.
-- The name of a cache and the list of caches are not modelled, nor are the log lines.
pub mod Objects
pub mod Serve
pub mod Release
pub mod Sample
mod Tests
use mjos.Base.{
  ℕ, zero, suc, ◌+◌, ◌-◌, ◌*◌, ◌/◌, ◌%◌, ◌^◌, ◌==◌, ltb, leb, ◌&&◌, if◌then◌else◌, Bool, true,
  false, Option, none, some,
}
use mjos.Base.Int.{ℤ, pos, negsuc, inc, dec}
use mjos.Pages.{
  PageState, pg_pool, Pfn, Page, Pages, PageList, page_list, nopage, update, pglist_is_empty,
  pglist_push_tail, pglist_remove,
}
use mjos.Frames.{Memory, is_pool}
use mjos.EarlyHeap.{round_up}
use mjos.Paging.{Vm, virtual, absolute}
use mjos.Paging.Alloc.{kernel_pages_alloc, kernel_pages_release}

-- `NOOBJ`
abbrev pub noobj : ℕ
noobj = 2 ^ 16 - 1

-- `CacheDescriptor`
pub record Cache : Type 0 where
  pub partial : PageList
  pub obj_size : ℕ
  pub partial_cnt : ℤ

-- The pages and the offsets in free objects.
pub record Slabs : Type 0 where
  pub vm : Vm
  pub links : ℕ → ℕ

unfoldable pub set_link : (ℕ → ℕ) → ℕ → ℕ → ℕ → ℕ
set_link links at v a = if a == at then v else links a

abbrev pub pages_of : Slabs → Pages
pages_of sys = sys.vm.frames.pages

abbrev pub with_pages : Slabs → Pages → Slabs
with_pages sys m = record sys { vm = record sys.vm { frames = record sys.vm.frames { pages = m } } }

-- `cache_init`
unfoldable pub cache_init : ℕ → Cache
cache_init obj_size = record {
  partial = page_list nopage nopage;
  obj_size = obj_size;
  partial_cnt = pos 0;
}

-- `calculate_page`
unfoldable pub calculate_page : ℕ → ℕ
calculate_page obj_size = round_up obj_size / 4096

-- The loop of `cache_add_slab` over the objects from `i` on, `n` of them behind the first, and the
-- write of `NOOBJ` behind the loop. An offset has 16 bits.
unfoldable pub link_objects : ℕ → ℕ → ℕ → ℕ → (ℕ → ℕ) → ℕ → ℕ
unfolding set_link
link_objects zero i addr size links = set_link links (addr + i * size) noobj
link_objects (suc n) i addr size links =
    link_objects n (i + 1) addr size (set_link links (addr + i * size) ((i + 1) * size % 2 ^ 16))

-- the address of a page in the direct map; the frame number is shifted in 32 bits
unfoldable pub page_address : Pfn → ℕ
page_address page = virtual (page * 4096 % 2 ^ 32)

-- The part of `cache_add_slab` behind the allocation of the pages.
unfoldable pub set_up : Cache → Pfn → Slabs → Cache × Slabs
unfolding link_objects
set_up cache page sys =
    let n = calculate_page cache.obj_size in
    let obj_cnt = 4096 * n / cache.obj_size in
    let fresh = update (pages_of sys) page (record (pages_of sys page) { obj = 0; inuse = 0 }) in
    let (l, m) = pglist_push_tail cache.partial page fresh in
    (
      record cache { partial = l; partial_cnt = inc cache.partial_cnt },
      record (with_pages sys m) {
        links = link_objects (obj_cnt - 1) 0 (page_address page) cache.obj_size sys.links;
      },
    )

-- `cache_add_slab`, for a size above 0
unfoldable pub cache_add_slab : ℕ → ℕ → Cache → Slabs → Option (Cache × Slabs)
unfolding set_up
cache_add_slab fuel kernel_pml4 cache sys =
    elim (kernel_pages_alloc (calculate_page cache.obj_size - 1) fuel pg_pool kernel_pml4 sys.vm) [
      | none ↦ none
      | some (page, vm') ↦
          if is_pool (vm'.frames.pages page).state
          then some (set_up cache page (record sys { vm = vm' }))
          else none
    ]

-- `cache_slab_alloc`
unfoldable pub cache_slab_alloc : Pfn → Slabs → ℕ × Slabs
cache_slab_alloc slab sys =
    let page = pages_of sys slab in
    let ret = page_address slab + page.obj in
    (
      ret,
      with_pages sys (
          update (pages_of sys) slab
            (record page { obj = sys.links ret; inuse = (page.inuse + 1) % 2 ^ 16 })),
    )

-- The part of `cache_obj_alloc` behind the check for an empty list, for the list's first slab.
unfoldable pub take_from : Pfn → Cache → Slabs → ℕ × Cache × Slabs
unfolding cache_slab_alloc
take_from slab cache sys =
    let (ret, sys') = cache_slab_alloc slab sys in
    let (l, m) = pglist_remove cache.partial slab (pages_of sys') in
    if (pages_of sys' slab).obj == noobj
    then (ret, record cache { partial = l; partial_cnt = dec cache.partial_cnt }, with_pages sys' m)
    else (ret, cache, sys')

abbrev pub take_object : Cache → Slabs → ℕ × Cache × Slabs
take_object cache sys = take_from cache.partial.head cache sys

-- `cache_obj_alloc`
unfoldable pub cache_obj_alloc : ℕ → ℕ → Cache → Slabs → Option (ℕ × Cache × Slabs)
cache_obj_alloc fuel kernel_pml4 cache sys =
    if pglist_is_empty cache.partial
    then elim (cache_add_slab fuel kernel_pml4 cache sys) [
      | none ↦ none
      | some (cache', sys') ↦ some (take_object cache' sys')
    ]
    else some (take_object cache sys)

-- `cache->partial_cnt >= 5`
abbrev pub many : ℤ → Bool
many (pos n) = leb 5 n
many (negsuc n) = false

-- The part of `cache_obj_release` that keeps the slab.
unfoldable pub put_object : Cache → Pfn → ℕ → Slabs → Cache × Slabs
unfolding set_link
put_object cache slab addr sys =
    let page = pages_of sys slab in
    let full = page.obj == noobj in
    let (l, m) = pglist_push_tail cache.partial slab (pages_of sys) in
    let cache' =
      (if full then record cache { partial = l; partial_cnt = inc cache.partial_cnt } else cache) in
    let m' = (if full then m else pages_of sys) in
    let emptied = record (m' slab) {
      obj = addr % 4096;
      inuse = ((m' slab).inuse + (2 ^ 16 - 1)) % 2 ^ 16;
    } in
    (
      cache',
      record (with_pages sys (update m' slab emptied)) { links = set_link sys.links addr page.obj },
    )

-- The part of `cache_obj_release` that gives the slab back. A page without links is taken for one
-- that is on no list.
unfoldable pub drop_slab : ℕ → ℕ → Cache → Pfn → Slabs → Option (Cache × Slabs)
drop_slab fuel kernel_pml4 cache slab sys =
    let page = pages_of sys slab in
    let detached = (page.prev == nopage) && (page.next == nopage) in
    let (l, m) = pglist_remove cache.partial slab (pages_of sys) in
    let cache' = (if detached then cache else record cache { partial = l }) in
    let sys' = (if detached then sys else with_pages sys m) in
    elim (kernel_pages_release (calculate_page cache.obj_size) fuel kernel_pml4 slab sys'.vm) [
      | none ↦ none
      | some vm' ↦ some (cache', record sys' { vm = vm' })
    ]

-- `cache_obj_release`
unfoldable pub cache_obj_release : ℕ → ℕ → Cache → ℕ → Slabs → Option (Cache × Slabs)
unfolding put_object drop_slab
cache_obj_release fuel kernel_pml4 cache addr sys =
    let slab = absolute addr / 4096 % 2 ^ 32 in
    if ((pages_of sys slab).inuse == 1) && many cache.partial_cnt
    then drop_slab fuel kernel_pml4 cache slab sys
    else some (put_object cache slab addr sys)
