-- ===== src/Slab/Tests.antt =====
-- A slab of two objects, and the theorems about it.
use mjos.Base.{ℕ, ◌+◌, ◌≡◌, refl, some, List, [], ◌∷◌, ◌∉◌, arith}
use mjos.Pages.{page_list}
use mjos.Pages.Links.{IsPageList}
use mjos.Frames.{frame_release}
use mjos.Paging.{Vm, virtual, page_table_set_entry, descend, slot, pml_offset, present}
use mjos.Paging.Alloc.{kernel_pages_release}
use mjos.Slab.{Cache, Slabs, page_address, calculate_page, cache_obj_alloc, cache_obj_release}
use mjos.Slab.Objects.{IsSlab, HasTaken}
use mjos.Slab.Serve.{HasPut, cache_obj_alloc-HasTaken}
use mjos.Slab.Sample.{pages, vm, links, sys, cache}
use mjos.Slab.Release.{cache_obj_release-HasPut, cache_obj_release-stale}

listed : (obj inuse : ℕ) → IsPageList (pages obj inuse) (page_list 8 8) (8 ∷ [])
listed obj inuse = record {
  queue = record {
    head = refl;
    tail = refl;
    backward = (refl, tt);
    distinct = (refl, tt);
    pages = refl;
  };
  forward = (refl, tt);
}

both : IsSlab (pages 0 0) links 8 (0 ∷ 2048 ∷ []) 0
unfolding page_address virtual
both = record {
  first = refl;
  chain = (refl, (refl, tt));
  distinct = (refl, (refl, tt));
  room = refl;
  count = refl;
}

second : IsSlab (pages 2048 1) links 8 (2048 ∷ []) 1
unfolding page_address virtual
second = record {
  first = refl;
  chain = (refl, tt);
  distinct = (refl, tt);
  room = refl;
  count = refl;
}

cache_obj_alloc-HasTaken_example :
    (r : ℕ × Cache × Slabs) × (cache_obj_alloc 1 0 (cache 1) (sys 0 0) ≡ some r)
    × HasTaken 8 [] 0 (2048 ∷ []) 0 (cache 1) r
cache_obj_alloc-HasTaken_example =
    cache_obj_alloc-HasTaken 1 0 (cache 1) (sys 0 0) 8 0 0 (2048 ∷ []) [] (omega arith) (listed 0 0)
      both

not_full : ◌≡◌ {A = List ℕ} (2048 ∷ []) [] → 8 ∉ 8 ∷ []
not_full e = ground arith

cache_obj_release-HasPut_example :
    (r : Cache × Slabs) × (cache_obj_release 1 0 (cache 1) (page_address 8 + 0) (sys 2048 1)
      ≡ some r)
    × HasPut 8 (8 ∷ []) 0 (2048 ∷ []) 1 (cache 1) r
cache_obj_release-HasPut_example =
    cache_obj_release-HasPut 1 0 (cache 1) (sys 2048 1) 8 0 1 (2048 ∷ []) (8 ∷ []) (omega arith)
      (omega arith) refl (omega arith) (omega arith) refl not_full (listed 2048 1) second

abbrev released : Vm
released = record (vm 2048 1) { frames = frame_release 8 (vm 2048 1).frames }

gives_back : kernel_pages_release (calculate_page 2048) 1 0 8 (vm 2048 1) ≡ some released
unfolding kernel_pages_release calculate_page page_table_set_entry descend slot pml_offset present
    virtual
gives_back = refl

cache_obj_release-stale_example :
    (cache_obj_release 1 0 (cache 5) (page_address 8 + 0) (sys 2048 1)
      ≡ some (cache 5, record (sys 2048 1) { vm = released }))
    × ((cache 5).partial.head ≡ 8)
cache_obj_release-stale_example =
    cache_obj_release-stale 1 0 (cache 5) (sys 2048 1) 8 0 (2048 ∷ []) released (omega arith)
      (omega arith) refl (listed 2048 1) second gives_back
