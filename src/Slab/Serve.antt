-- ===== src/Slab/Serve.antt =====
-- `cache_obj_alloc` and `cache_obj_release` as wholes, for a cache with a slab that has free objects, and
-- for an object whose slab is kept.
use mjos.Base.{
  ℕ, ◌+◌, ◌-◌, ◌%◌, ◌^◌, ◌≤◌, ◌<◌, ◌≡◌, ◌≢◌, refl, ap, sym, ◌∙◌, ◌==◌, ==_iff, ==_ne, ==_self, true,
  false, some, List, [], ◌∷◌, ◌++◌, ◌∉◌, ne_of_mem, arith,
}
use mjos.Base.Int.{ℤ, inc}
use mjos.Chain.{Forward-frame}
use mjos.Pages.{Pfn, Pages, Page, PageList, nopage, update, pglist_is_empty, pglist_push_tail}
use mjos.Pages.Links.{IsPageList}
use mjos.Pages.Push.{push_tail-IsPageList, push_tail-OnlyLinks}
use mjos.Slab.{
  noobj, Cache, Slabs, set_link, pages_of, page_address, take_from, cache_obj_alloc, put_object,
}
use mjos.Slab.Objects.{IsSlab, IsPageList-links, HasTaken, take-some, take-last}

take-HasTaken :
    (cache : Cache) (sys : Slabs) (slab : Pfn) (o used : ℕ) (os : List ℕ) (ps : List Pfn)
    → used + 1 < 2 ^ 16
    → IsPageList (pages_of sys) cache.partial (slab ∷ ps)
    → IsSlab (pages_of sys) sys.links slab (o ∷ os) used
    → HasTaken slab ps o os used cache (take_from slab cache sys)
take-HasTaken cache sys slab o used [] ps small list s =
    take-last cache sys slab o used small ps list s
take-HasTaken cache sys slab o used (p ∷ os) ps small list s =
    take-some cache sys slab o used small p os ps list s

not_empty : (l : PageList) (slab : Pfn) → l.head ≡ slab → slab ≢ nopage → pglist_is_empty l ≡ false
unfolding pglist_is_empty
not_empty l slab e ne = rw e (rw (==_ne slab nopage ne) refl)

-- Where the list of partial slabs is not empty, `cache_obj_alloc` returns the first free object of the
-- first slab; that object is no longer free and one more is in use, and the slab leaves the list, and the
-- list's counter goes down, exactly when it was the last free one.
pub cache_obj_alloc-HasTaken :
    (fuel top : ℕ) (cache : Cache) (sys : Slabs) (slab : Pfn) (o used : ℕ) (os : List ℕ)
    (ps : List Pfn)
    → used + 1 < 2 ^ 16
    → IsPageList (pages_of sys) cache.partial (slab ∷ ps)
    → IsSlab (pages_of sys) sys.links slab (o ∷ os) used
    → (r : ℕ × Cache × Slabs) × (cache_obj_alloc fuel top cache sys ≡ some r)
      × HasTaken slab ps o os used cache r
unfolding cache_obj_alloc
cache_obj_alloc-HasTaken fuel top cache sys slab o used os ps small list s =
    let page : slab ≢ nopage = ne_of_mem slab nopage (slab ∷ ps) (ground arith) list.queue.pages in
    let head = list.queue.head in
    let nonempty : pglist_is_empty cache.partial ≡ false = not_empty cache.partial slab head page in
    (
      take_from slab cache sys,
      rw nonempty (ap (λ h. some (take_from h cache sys)) head),
      take-HasTaken cache sys slab o used os ps small list s,
    )

-- the list behind the release of an object of `slab`
abbrev pub again_partial : List ℕ → Pfn → List Pfn → List Pfn
again_partial [] slab xs = xs ++ slab ∷ []
again_partial (o ∷ os) slab xs = xs

abbrev pub count_again : List ℕ → ℤ → ℤ
count_again [] n = inc n
count_again (o ∷ os) n = n

-- What a call of `cache_obj_release` that keeps the slab leaves behind.
pub record HasPut (slab : Pfn) (xs : List Pfn) (o : ℕ) (os : List ℕ) (used : ℕ) (cache : Cache)
    (r : Cache × Slabs) : Type 0 where
  pub slab_left : IsSlab (pages_of r.1) r.1.links slab (o ∷ os) (used - 1)
  pub partial : IsPageList (pages_of r.1) r.0.partial (again_partial os slab xs)
  pub count : r.0.partial_cnt ≡ count_again os cache.partial_cnt

module _ (cache : Cache) (sys : Slabs) (slab : Pfn) (o used : ℕ) (some_used : 1 ≤ used)
    (small : used < 2 ^ 16) (inside : o < 4096) (aligned : page_address slab % 4096 ≡ 0) where
  -- The chain with the object in front.
  put-IsSlab :
      (m : Pages) (os : List ℕ)
      → o ∉ os
      → ((m slab).inuse ≡ used)
      → IsSlab (pages_of sys) sys.links slab os used
      → IsSlab
          (update m slab (record (m slab) {
            obj = (page_address slab + o) % 4096;
            inuse = ((m slab).inuse + (2 ^ 16 - 1)) % 2 ^ 16;
          }))
          (set_link sys.links (page_address slab + o) (pages_of sys slab).obj)
          slab
          (o ∷ os)
          (used - 1)
  unfolding update set_link
  put-IsSlab m os out count s = record {
    first = rw (==_self slab) (omega arith);
    chain = (
      rw (==_self (page_address slab + o)) s.first,
      Forward-frame (λ x. sys.links (page_address slab + x)) _ os noobj
          (λ x i.
            let ne = ne_of_mem x o os i out in
            rw (==_ne (page_address slab + x) (page_address slab + o) (omega arith)) refl)
          s.chain,
    );
    distinct = (out, s.distinct);
    room = let room = s.room in ground arith;
    count = rw (==_self slab) (omega arith);
  }

  put-links :
      (m : Pages) (a : Pfn) (v : Page)
      → v.next ≡ (m slab).next
      → v.prev ≡ (m slab).prev
      → ((update m slab v a).next ≡ (m a).next) × ((update m slab v a).prev ≡ (m a).prev)
  unfolding update
  put-links m a v n p = (ground arith, ground arith)

  pub put-some :
      (p : ℕ) (os : List ℕ) (xs : List Pfn)
      → o ∉ p ∷ os
      → IsPageList (pages_of sys) cache.partial xs
      → IsSlab (pages_of sys) sys.links slab (p ∷ os) used
      → HasPut slab xs o (p ∷ os) used cache (put_object cache slab (page_address slab + o) sys)
  unfolding put_object
  put-some p os xs out list s =
      let other : p ≢ noobj = ne_of_mem p noobj (p ∷ os) (ground arith) s.room in
      let full : ((pages_of sys slab).obj == noobj) ≡ false =
        ==_ne (pages_of sys slab).obj noobj (λ e. other (sym s.first ∙ e)) in
      rw full (record {
        slab_left = put-IsSlab (pages_of sys) (p ∷ os) out s.count s;
        partial =
            IsPageList-links (pages_of sys) _ cache.partial xs
              (λ a. put-links (pages_of sys) a _ refl refl) list;
        count = refl;
      })

  pub put-first :
      (xs : List Pfn)
      → slab ∉ xs
      → slab ≢ nopage
      → IsPageList (pages_of sys) cache.partial xs
      → IsSlab (pages_of sys) sys.links slab [] used
      → HasPut slab xs o [] used cache (put_object cache slab (page_address slab + o) sys)
  unfolding put_object
  put-first xs out page list s =
      let m = (pglist_push_tail cache.partial slab (pages_of sys)).1 in
      let full : ((pages_of sys slab).obj == noobj) ≡ true =
        (==_iff (pages_of sys slab).obj noobj).1 s.first in
      let same = push_tail-OnlyLinks (pages_of sys) cache.partial slab slab in
      rw full (record {
        slab_left = put-IsSlab m [] refl (same.2 ∙ s.count) s;
        partial =
            IsPageList-links m _ _ (xs ++ slab ∷ []) (λ a. put-links m a _ refl refl)
              (push_tail-IsPageList (pages_of sys) cache.partial slab page xs out list);
        count = refl;
      })
