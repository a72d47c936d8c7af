-- ===== src/Pages/Remove.antt =====
-- `pglist_remove` of kernel/memory/page.c.
use mjos.Base.{
  ◌≡◌, refl, sym, ◌∙◌, ◌≢◌, List, [], ◌∷◌, ◌++◌, arith, ◌∉◌, Distinct, Distinct-middle,
  Distinct-left, not_mem-append, append-not_mem, ne_of_mem,
}
use mjos.Pages.{Pfn, Pages, PageList, nopage, update, pglist_remove}
use mjos.Chain.{
  first_or, last_or, first_or-ne, last_or-ne, last_or-append, Backward, Forward, Backward-frame,
  Forward-frame, Backward-append, append-Backward, Forward-append, append-Forward, Forward-set_last,
  Backward-set_first, last_or-not_mem, first_or-not_mem,
}
use mjos.Pages.Links.{nexts, prevs, last_or-page, IsPageList, OnlyLinks}

-- What the removal of a page between `b` and `a` does to each frame.
module _ (m : Pages) (l : PageList) (page b a : Pfn) (prev : (m page).prev ≡ b)
    (next : (m page).next ≡ a) (before : b ≢ page) (behind : a ≢ page) where
  abbrev removed : Pages
  removed = (pglist_remove l page m).1

  remove-OnlyLinks : OnlyLinks m removed (page ∷ b ∷ a ∷ [])
  unfolding pglist_remove update
  remove-OnlyLinks x = (ground arith, ground arith, ground arith, ground arith)

  remove-page : ((removed page).prev ≡ nopage) × ((removed page).next ≡ nopage)
  unfolding pglist_remove update
  remove-page = (ground arith, ground arith)

  remove-next : (x : Pfn) → x ≢ page → x ≢ b → (removed x).next ≡ (m x).next
  unfolding pglist_remove update
  remove-next x n k = ground arith

  remove-prev : (x : Pfn) → x ≢ page → x ≢ a → (removed x).prev ≡ (m x).prev
  unfolding pglist_remove update
  remove-prev x n k = ground arith

  remove-before : b ≢ nopage → (removed b).next ≡ a
  unfolding pglist_remove update
  remove-before n = ground arith

  remove-behind : a ≢ nopage → (removed a).prev ≡ b
  unfolding pglist_remove update
  remove-behind n = ground arith

  remove-ends :
      (b ≡ nopage → (pglist_remove l page m).0.head ≡ a)
      × (b ≢ nopage → (pglist_remove l page m).0.head ≡ l.head)
      × (a ≡ nopage → (pglist_remove l page m).0.tail ≡ b)
      × (a ≢ nopage → (pglist_remove l page m).0.tail ≡ l.tail)
  unfolding pglist_remove update
  remove-ends = (ground arith, ground arith, ground arith, ground arith)

-- The facts about a page `x` between `ys` and `zs` that the removal rests on.
record Between (m : Pages) (ys : List Pfn) (x : Pfn) (zs : List Pfn) : Type 0 where
  prev : (m x).prev ≡ last_or nopage ys
  next : (m x).next ≡ first_or zs nopage
  before : last_or nopage ys ≢ x
  behind : first_or zs nopage ≢ x
  back_left : Backward (prevs m) nopage ys
  back_right : Backward (prevs m) x zs
  fore_left : Forward (nexts m) ys x
  fore_right : Forward (nexts m) zs nopage
  distinct : Distinct (ys ++ zs)
  out : x ∉ ys ++ zs
  pages : nopage ∉ ys ++ zs

IsPageList-Between :
    (m : Pages) (l : PageList) (ys : List Pfn) (x : Pfn) (zs : List Pfn)
    → IsPageList m l (ys ++ x ∷ zs)
    → Between m ys x zs
IsPageList-Between m l ys x zs p =
    let back = Backward-append (prevs m) nopage ys (x ∷ zs) p.queue.backward in
    let fore = Forward-append (nexts m) ys (x ∷ zs) nopage p.forward in
    let apart = Distinct-middle x ys zs p.queue.distinct in
    let outs = not_mem-append x ys zs apart.1 in
    let page = not_mem-append nopage ys (x ∷ zs) p.queue.pages in
    let real : x ≢ nopage = ground (arith, page.1) in
    record {
      prev = back.1.0;
      next = fore.1.0;
      before = λ e. last_or-ne x nopage ys outs.0 real (sym e);
      behind = λ e. first_or-ne x zs nopage outs.1 real (sym e);
      back_left = back.0;
      back_right = back.1.1;
      fore_left = fore.0;
      fore_right = fore.1.1;
      distinct = apart.0;
      out = apart.1;
      pages = append-not_mem nopage ys zs page.0 (ground (arith, page.1));
    }

module _ (m : Pages) (l : PageList) (x : Pfn) where
  remove-Forward_left :
      (ys zs : List Pfn)
      → Between m ys x zs
      → Forward (nexts (pglist_remove l x m).1) ys (first_or zs nopage)
  remove-Forward_left [] zs w = tt
  remove-Forward_left (y ∷ ys) zs w =
      let outs = not_mem-append x (y ∷ ys) zs w.out in
      let page = not_mem-append nopage (y ∷ ys) zs w.pages in
      Forward-set_last (nexts m) (nexts (pglist_remove l x m).1) x (first_or zs nopage) y ys
        (remove-before m l x (last_or y ys) (first_or zs nopage) w.prev w.next w.before w.behind
          (last_or-page y ys page.0))
        (λ a i k.
          remove-next m l x (last_or y ys) (first_or zs nopage) w.prev w.next w.before w.behind a
            (ne_of_mem a x (y ∷ ys) i outs.0) k)
        (Distinct-left (y ∷ ys) zs w.distinct) w.fore_left

  remove-Backward_right :
      (ys zs : List Pfn)
      → Between m ys x zs
      → Backward (prevs (pglist_remove l x m).1) (last_or nopage ys) zs
  remove-Backward_right ys [] w = tt
  remove-Backward_right ys (z ∷ zs) w =
      let outs = not_mem-append x ys (z ∷ zs) w.out in
      let page = not_mem-append nopage ys (z ∷ zs) w.pages in
      Backward-set_first (prevs m) (prevs (pglist_remove l x m).1) x (last_or nopage ys) z zs
        (remove-behind m l x (last_or nopage ys) z w.prev w.next w.before w.behind
          (ground (arith, page.1)))
        (λ a i.
          remove-prev m l x (last_or nopage ys) z w.prev w.next w.before w.behind a
            (ne_of_mem a x (z ∷ zs) (ground (arith, i)) outs.1)
            (ne_of_mem a z zs i (not_mem-append z ys zs (Distinct-middle z ys zs w.distinct).1).1))
        w.back_right

  remove-head :
      (ys zs : List Pfn)
      → IsPageList m l (ys ++ x ∷ zs)
      → Between m ys x zs
      → (pglist_remove l x m).0.head ≡ first_or (ys ++ zs) nopage
  remove-head [] zs p w =
      (remove-ends m l x nopage (first_or zs nopage) w.prev w.next w.before w.behind).0 refl
  remove-head (y ∷ ys) zs p w =
      let page = not_mem-append nopage (y ∷ ys) zs w.pages in
      (remove-ends m l x (last_or y ys) (first_or zs nopage) w.prev w.next w.before w.behind).1
        (last_or-page y ys page.0)
      ∙ p.queue.head

  remove-tail :
      (ys zs : List Pfn)
      → IsPageList m l (ys ++ x ∷ zs)
      → Between m ys x zs
      → (pglist_remove l x m).0.tail ≡ last_or nopage (ys ++ zs)
  remove-tail ys [] p w =
      (remove-ends m l x (last_or nopage ys) nopage w.prev w.next w.before w.behind).2 refl
      ∙ sym (last_or-append nopage ys [])
  remove-tail ys (z ∷ zs) p w =
      (remove-ends m l x (last_or nopage ys) z w.prev w.next w.before w.behind).3
        (ground (arith, not_mem-append nopage ys (z ∷ zs) w.pages))
      ∙ p.queue.tail
      ∙ last_or-append nopage ys (x ∷ z ∷ zs)
      ∙ sym (last_or-append nopage ys (z ∷ zs))

  -- Removing a page of a list, wherever it stands, leaves the others in their order, linked both
  -- ways, and the page with no links.
  pub remove-IsPageList :
      (ys zs : List Pfn)
      → IsPageList m l (ys ++ x ∷ zs)
      → IsPageList (pglist_remove l x m).1 (pglist_remove l x m).0 (ys ++ zs)
        × (((pglist_remove l x m).1 x).prev ≡ nopage)
        × (((pglist_remove l x m).1 x).next ≡ nopage)
  remove-IsPageList ys zs p =
      let w = IsPageList-Between m l ys x zs p in
      let m' = (pglist_remove l x m).1 in
      let outs = not_mem-append x ys zs w.out in
      let page = not_mem-append nopage ys zs w.pages in
      let a = first_or zs nopage in
      let b = last_or nopage ys in
      let bare = remove-page m l x b a w.prev w.next w.before w.behind in
      (
        record {
          queue = record {
            head = remove-head ys zs p w;
            tail = remove-tail ys zs p w;
            backward =
                append-Backward (prevs m') nopage ys zs
                  (Backward-frame (prevs m) (prevs m') nopage ys
                    (λ c i.
                      remove-prev m l x b a w.prev w.next w.before w.behind c
                        (ne_of_mem c x ys i outs.0)
                        (ne_of_mem c a ys i (first_or-not_mem ys zs nopage w.distinct page.0)))
                    w.back_left)
                  (remove-Backward_right ys zs w);
            distinct = w.distinct;
            pages = w.pages;
          };
          forward = append-Forward (nexts m') ys zs nopage (remove-Forward_left ys zs w) (
              Forward-frame (nexts m) (nexts m') zs nopage
                (λ c i.
                  remove-next m l x b a w.prev w.next w.before w.behind c
                    (ne_of_mem c x zs i outs.1)
                    (ne_of_mem c b zs i (last_or-not_mem nopage ys zs w.distinct page.1)))
                w.fore_right);
        },
        bare.0,
        bare.1,
      )

  -- The removal changes no state, and no frame but those of the list.
  pub remove-frame :
      (ys zs : List Pfn)
      → IsPageList m l (ys ++ x ∷ zs)
      → (c : Pfn)
      → (((pglist_remove l x m).1 c).state ≡ (m c).state)
        × (c ∉ ys ++ x ∷ zs → c ≢ nopage → (pglist_remove l x m).1 c ≡ m c)
  remove-frame ys zs p c =
      let w = IsPageList-Between m l ys x zs p in
      let a = first_or zs nopage in
      let b = last_or nopage ys in
      let only = remove-OnlyLinks m l x b a w.prev w.next w.before w.behind c in
      (
        only.0,
        λ out n.
            let outs = not_mem-append c ys (x ∷ zs) out in
            only.3
              (ground (arith, outs.1, last_or-ne c nopage ys outs.0 n, first_or-ne c zs nopage, n)),
      )
