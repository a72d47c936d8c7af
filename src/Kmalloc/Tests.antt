-- ===== src/Kmalloc/Tests.antt =====
-- A heap with a slab of objects of 2048 bytes, and the theorems about it.
use mjos.Base.{[], ◌∷◌, ◌+◌, ◌≡◌, refl, none, some, arith}
use mjos.Paging.{virtual}
use mjos.Pages.Links.{IsPageList}
use mjos.Slab.Objects.{IsSlab}
use mjos.Slab.{pages_of, page_address}
use mjos.Slab.Sample.{sys, cache}
use mjos.Kmalloc.{Heap, get_kmalloc_cache, first_class, kmalloc, kfree}
use mjos.Kmalloc.Classes.{IsLeast, get_kmalloc_cache-IsLeast}
use mjos.Kmalloc.Free.{kmalloc-kfree}

abbrev heap : Heap
heap = record { caches = λ i. cache 1; sys = sys 0 0; sizes = λ a. 0; bytes = λ a. 0 }

-- no cache serves the last size of the table
too_large : get_kmalloc_cache 16384 ≡ none
unfolding get_kmalloc_cache first_class
too_large = refl

class : get_kmalloc_cache (2040 + 8) ≡ some 10
unfolding get_kmalloc_cache first_class
class = refl

get_kmalloc_cache-IsLeast_example : IsLeast 100 (get_kmalloc_cache 100)
get_kmalloc_cache-IsLeast_example = get_kmalloc_cache-IsLeast 100

listed : IsPageList (pages_of heap.sys) (heap.caches 10).partial (8 ∷ [])
listed = record {
  queue = record {
    head = refl;
    tail = refl;
    backward = (refl, tt);
    distinct = (refl, tt);
    pages = refl;
  };
  forward = (refl, tt);
}

both : IsSlab (pages_of heap.sys) heap.sys.links 8 (0 ∷ 2048 ∷ []) 0
unfolding page_address virtual
both = record {
  first = refl;
  chain = (refl, (refl, tt));
  distinct = (refl, (refl, tt));
  room = refl;
  count = refl;
}

kmalloc-kfree_example :
    (h1 : Heap) × (h2 : Heap) × (kmalloc 1 0 2040 heap ≡ some (page_address 8 + 0 + 8, h1))
    × (h1.sizes (page_address 8 + 0) ≡ 2040 + 8)
    × IsSlab (pages_of h1.sys) h1.sys.links 8 (2048 ∷ []) (0 + 1)
    × (kfree 1 0 (page_address 8 + 0 + 8) h1 ≡ some h2)
    × IsSlab (pages_of h2.sys) h2.sys.links 8 (0 ∷ 2048 ∷ []) 0
    × IsPageList (pages_of h2.sys) (h2.caches 10).partial (8 ∷ [])
kmalloc-kfree_example =
    kmalloc-kfree 1 0 2040 10 0 0 heap 8 (2048 ∷ []) [] (omega arith) (omega arith) (omega arith)
      (omega arith) class refl listed both
