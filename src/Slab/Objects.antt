-- ===== src/Slab/Objects.antt =====
-- The free objects of a slab: what `cache_obj_alloc` and `cache_obj_release` do to their chain and to the
-- list of slabs that have some.
use mjos.Base.{
  ℕ, ◌+◌, ◌%◌, ◌^◌, ◌<◌, ◌≡◌, ◌≢◌, refl, ap, sym, ◌∙◌, ◌==◌, ==_iff, ==_ne, ==_self, true, false,
  List, [], ◌∷◌, ◌∉◌, Distinct, ne_of_mem, not_mem-cons, arith,
}
use mjos.Base.Int.{ℤ, dec}
use mjos.Chain.{first_or, Forward, Forward-frame, Backward-frame}
use mjos.Pages.{Pfn, Pages, PageList, nopage, update, pglist_remove}
use mjos.Pages.Links.{nexts, prevs, IsPageList}
use mjos.Pages.Remove.{remove-IsPageList}
use mjos.Slab.{noobj, Cache, Slabs, pages_of, page_address, cache_slab_alloc, take_from}

-- The slab that begins at the page `slab` has the objects at the offsets `os` free, and `used` in use.
pub record IsSlab (m : Pages) (links : ℕ → ℕ) (slab : Pfn) (os : List ℕ) (used : ℕ) : Type 0 where
  pub first : (m slab).obj ≡ first_or os noobj
  pub chain : Forward (λ o. links (page_address slab + o)) os noobj
  pub distinct : Distinct os
  pub room : noobj ∉ os
  pub count : (m slab).inuse ≡ used

-- a list stays one where the links of its pages do
pub IsPageList-links :
    (m m' : Pages) (l : PageList) (xs : List Pfn)
    → ((a : Pfn) → ((m' a).next ≡ (m a).next) × ((m' a).prev ≡ (m a).prev))
    → IsPageList m l xs
    → IsPageList m' l xs
IsPageList-links m m' l xs same p = record {
  queue = record {
    head = p.queue.head;
    tail = p.queue.tail;
    backward = Backward-frame (prevs m) (prevs m') nopage xs (λ a i. (same a).1) p.queue.backward;
    distinct = p.queue.distinct;
    pages = p.queue.pages;
  };
  forward = Forward-frame (nexts m) (nexts m') xs nopage (λ a i. (same a).0) p.forward;
}

remove-object :
    (m : Pages) (l : PageList) (page a : Pfn)
    → (((pglist_remove l page m).1 a).obj ≡ (m a).obj)
      × (((pglist_remove l page m).1 a).inuse ≡ (m a).inuse)
unfolding pglist_remove update
remove-object m l page a = (ground arith, ground arith)

-- the slabs that stay on the list when an object is taken
abbrev pub still_partial : List ℕ → Pfn → List Pfn → List Pfn
still_partial [] slab ps = ps
still_partial (o ∷ os) slab ps = slab ∷ ps

abbrev pub count_behind : List ℕ → ℤ → ℤ
count_behind [] n = dec n
count_behind (o ∷ os) n = n

-- What a call of `cache_obj_alloc` leaves behind.
pub record HasTaken (slab : Pfn) (ps : List Pfn) (o : ℕ) (os : List ℕ) (used : ℕ) (cache : Cache)
    (r : ℕ × Cache × Slabs) : Type 0 where
  pub object : r.0 ≡ page_address slab + o
  pub slab_left : IsSlab (pages_of r.2) r.2.links slab os (used + 1)
  pub partial : IsPageList (pages_of r.2) r.1.partial (still_partial os slab ps)
  pub count : r.1.partial_cnt ≡ count_behind os cache.partial_cnt

module _ (cache : Cache) (sys : Slabs) (slab : Pfn) (o used : ℕ) (small : used + 1 < 2 ^ 16) where
  -- the pages when the object is taken off its chain
  taken : Pages
  taken = update (pages_of sys) slab (record (pages_of sys slab) {
    obj = sys.links (page_address slab + (pages_of sys slab).obj);
    inuse = ((pages_of sys slab).inuse + 1) % 2 ^ 16;
  })

  taken-links :
      (a : Pfn)
      → ((taken a).next ≡ (pages_of sys a).next) × ((taken a).prev ≡ (pages_of sys a).prev)
  unfolding taken update
  taken-links a = (ground arith, ground arith)

  taken-IsSlab :
      (os : List ℕ)
      → IsSlab (pages_of sys) sys.links slab (o ∷ os) used
      → IsSlab taken sys.links slab os (used + 1)
  unfolding taken update
  taken-IsSlab os s =
      let first = s.first in
      let chain = s.chain in
      let link = chain.0 in
      let count = s.count in
      record {
        first = rw (==_self slab) (rw first link);
        chain = chain.1;
        distinct = s.distinct.1;
        room = (not_mem-cons noobj o os s.room).1;
        count = rw (==_self slab) (omega arith);
      }

  taken-first :
      (os : List ℕ)
      → IsSlab (pages_of sys) sys.links slab (o ∷ os) used
      → (taken slab).obj ≡ first_or os noobj
  taken-first os s = let t = taken-IsSlab os s in t.first

  pub take-some :
      (p : ℕ) (os : List ℕ) (ps : List Pfn)
      → IsPageList (pages_of sys) cache.partial (slab ∷ ps)
      → IsSlab (pages_of sys) sys.links slab (o ∷ p ∷ os) used
      → HasTaken slab ps o (p ∷ os) used cache (take_from slab cache sys)
  unfolding take_from cache_slab_alloc taken
  take-some p os ps list s =
      let after = taken-IsSlab (p ∷ os) s in
      let other : p ≢ noobj = ne_of_mem p noobj (o ∷ p ∷ os) (ground arith) s.room in
      let full : ((taken slab).obj == noobj) ≡ false =
        ==_ne (taken slab).obj noobj (λ e. other (sym after.first ∙ e)) in
      rw full (record {
        object = ap (λ n. page_address slab + n) s.first;
        slab_left = after;
        partial = IsPageList-links (pages_of sys) taken cache.partial (slab ∷ ps) taken-links list;
        count = refl;
      })

  pub take-last :
      (ps : List Pfn)
      → IsPageList (pages_of sys) cache.partial (slab ∷ ps)
      → IsSlab (pages_of sys) sys.links slab (o ∷ []) used
      → HasTaken slab ps o [] used cache (take_from slab cache sys)
  unfolding take_from cache_slab_alloc taken
  take-last ps list s =
      let after = taken-IsSlab [] s in
      let full : ((taken slab).obj == noobj) ≡ true =
        (==_iff (taken slab).obj noobj).1 after.first in
      let same = remove-object taken cache.partial slab slab in
      rw full (record {
        object = ap (λ n. page_address slab + n) s.first;
        slab_left = record {
          first = same.0 ∙ after.first;
          chain = after.chain;
          distinct = after.distinct;
          room = after.room;
          count = same.1 ∙ after.count;
        };
        partial =
            (remove-IsPageList taken cache.partial slab [] ps
              (IsPageList-links (pages_of sys) taken cache.partial (slab ∷ ps) taken-links list)).0;
        count = refl;
      })
