-- ===== src/Pages/Pop.antt =====
-- `pglist_pop_head` and `pglist_pop_tail` of kernel/memory/page.c. Neither clears the link that
-- the page left behind has to the page popped: what they leave is linked one way only.
use mjos.Base.{
  ◌≡◌, refl, sym, ◌∙◌, ◌≢◌, List, [], ◌∷◌, ◌++◌, append-nil, arith, ◌∉◌, Distinct-middle,
  not_mem-append, ap, ne_of_mem,
}
use mjos.Pages.{Pfn, Page, Pages, PageList, nopage, update, pglist_pop_head, pglist_pop_tail}
use mjos.Chain.{
  first_or, last_or, last_or-snoc, last_or-append, Forward, Backward-frame, Forward-frame,
  Backward-append, Forward-append,
}
use mjos.Pages.Links.{nexts, prevs, last_or-page, IsQueue, IsPageList, OnlyLinks}

module _ (m : Pages) (l : PageList) where
  abbrev pub popped_tail : Pages
  popped_tail = (pglist_pop_tail l m).2

  abbrev pub popped_head : Pages
  popped_head = (pglist_pop_head l m).2

  pop_tail-OnlyLinks : OnlyLinks m popped_tail (l.tail ∷ [])
  unfolding pglist_pop_tail update
  pop_tail-OnlyLinks a = (ground arith, ground arith, ground arith, ground arith)

  pop_head-OnlyLinks : OnlyLinks m popped_head (l.head ∷ [])
  unfolding pglist_pop_head update
  pop_head-OnlyLinks a = (ground arith, ground arith, ground arith, ground arith)

  pop_tail-links :
      l.tail ≢ nopage → ((popped_tail l.tail).prev ≡ nopage) × ((popped_tail l.tail).next ≡ nopage)
  unfolding pglist_pop_tail update
  pop_tail-links n = (ground arith, ground arith)

  -- The result of `pglist_pop_tail` on a list that is not empty.
  pop_tail-result :
      (x b h : Pfn)
      → l.tail ≡ x
      → x ≢ nopage
      → (m x).prev ≡ b
      → l.head ≡ h
      → ((pglist_pop_tail l m).0 ≡ x)
        × ((pglist_pop_tail l m).1.tail ≡ b)
        × (b ≡ nopage → (pglist_pop_tail l m).1.head ≡ nopage)
        × (b ≢ nopage → (pglist_pop_tail l m).1.head ≡ h)
  unfolding pglist_pop_tail update
  pop_tail-result x b h e n p q = (ground arith, ground arith, ground arith, ground arith)

  -- On an empty list `pglist_pop_tail` returns NOPAGE and changes nothing.
  pop_tail-nil : IsQueue m l [] → pglist_pop_tail l m ≡ (nopage, l, m)
  unfolding pglist_pop_tail update
  pop_tail-nil q = ground (arith, q.tail)

  pop_tail-head :
      (xs : List Pfn) (x : Pfn)
      → IsQueue m l (xs ++ x ∷ [])
      → x ≢ nopage
      → nopage ∉ xs
      → (m x).prev ≡ last_or nopage xs
      → ((pglist_pop_tail l m).0 ≡ x)
        × ((pglist_pop_tail l m).1.head ≡ first_or xs nopage)
        × ((pglist_pop_tail l m).1.tail ≡ last_or nopage xs)
  pop_tail-head [] x q n u e =
      let r = pop_tail-result x nopage x q.tail n e q.head in (r.0, r.2 refl, r.1)
  pop_tail-head (y ∷ ys) x q n u e =
      let r = pop_tail-result x (last_or y ys) y (q.tail ∙ last_or-snoc y ys x) n e q.head in
      (r.0, r.3 (last_or-page y ys u), r.1)

  -- Popping the tail of a list that holds by its `prev` chain returns its last page and leaves
  -- the others, again by their `prev` chain.
  pub pop_tail-IsQueue :
      (xs : List Pfn) (x : Pfn)
      → IsQueue m l (xs ++ x ∷ [])
      → ((pglist_pop_tail l m).0 ≡ x) × IsQueue popped_tail (pglist_pop_tail l m).1 xs
  pop_tail-IsQueue xs x q =
      let back = Backward-append (prevs m) nopage xs (x ∷ []) q.backward in
      let apart = Distinct-middle x xs [] q.distinct in
      let out = not_mem-append nopage xs (x ∷ []) q.pages in
      let here : x ≢ nopage = ground (arith, out.1) in
      let ends = pop_tail-head xs x q here out.0 back.1.0 in
      (
        ends.0,
        record {
          head = ends.1;
          tail = ends.2;
          backward =
              Backward-frame (prevs m) (prevs popped_tail) nopage xs
                (λ a i.
                  ap (λ (p : Page). p.prev)
                    ((pop_tail-OnlyLinks a).3 (
                      rw (q.tail ∙ last_or-snoc nopage xs x)
                        (ground (arith, ne_of_mem a x xs i (rw append-nil at apart.1))))))
                back.0;
          distinct = rw append-nil at apart.0;
          pages = out.0;
        },
      )

  pop_head-result :
      (x : Pfn) (b t : Pfn)
      → l.head ≡ x
      → x ≢ nopage
      → (m x).next ≡ b
      → l.tail ≡ t
      → ((pglist_pop_head l m).0 ≡ x)
        × ((pglist_pop_head l m).1.head ≡ b)
        × (b ≡ nopage → (pglist_pop_head l m).1.tail ≡ nopage)
        × (b ≢ nopage → (pglist_pop_head l m).1.tail ≡ t)
  unfolding pglist_pop_head update
  pop_head-result x b t e n p q = (ground arith, ground arith, ground arith, ground arith)

  -- Popping the head of a list returns its first page and leaves the ends and the `next` chain of
  -- the others.
  pub pop_head-Forward :
      (x : Pfn) (xs : List Pfn)
      → IsPageList m l (x ∷ xs)
      → ((pglist_pop_head l m).0 ≡ x)
        × ((pglist_pop_head l m).1.head ≡ first_or xs nopage)
        × ((pglist_pop_head l m).1.tail ≡ last_or nopage xs)
        × Forward (nexts popped_head) xs nopage
  pop_head-Forward x xs p =
      let r =
        pop_head-result x (first_or xs nopage) (last_or x xs) p.queue.head
          (ground (arith, p.queue.pages)) p.forward.0 p.queue.tail in
      (
        r.0,
        r.1,
        last xs (rw p.queue.pages) r.2 r.3,
        Forward-frame (nexts m) (nexts popped_head) xs nopage
            (λ a i.
              ap (λ (p : Page). p.next)
                ((pop_head-OnlyLinks a).3
                  (rw p.queue.head (ground (arith, ne_of_mem a x xs i p.queue.distinct.0)))))
            p.forward.1,
      )
    where
      last :
          (ys : List Pfn)
          → nopage ∉ x ∷ ys
          → (first_or ys nopage ≡ nopage → (pglist_pop_head l m).1.tail ≡ nopage)
          → (first_or ys nopage ≢ nopage → (pglist_pop_head l m).1.tail ≡ last_or x ys)
          → (pglist_pop_head l m).1.tail ≡ last_or nopage ys
      last [] u f g = f refl
      last (y ∷ ys) u f g = g (ground arith)

  -- Popping the tail changes no state, and no frame but the one popped, whose links it clears.
  pub pop_tail-frame :
      (xs : List Pfn) (x : Pfn)
      → IsQueue m l (xs ++ x ∷ [])
      → (c : Pfn) → ((popped_tail c).state ≡ (m c).state) × (c ≢ x → popped_tail c ≡ m c)
  pop_tail-frame xs x q c = (
    (pop_tail-OnlyLinks c).0,
    λ n. (pop_tail-OnlyLinks c).3 (rw (q.tail ∙ last_or-snoc nopage xs x) (ground arith)),
  )

  -- `pglist_pop_tail` does not clear the `next` of the page that becomes the tail: it still names
  -- the page popped, so what is left is never linked both ways.
  pub pop_tail-stale :
      (xs : List Pfn) (y x : Pfn)
      → IsPageList m l (xs ++ y ∷ x ∷ [])
      → ((popped_tail y).next ≡ x) × ¬ IsPageList popped_tail (pglist_pop_tail l m).1 (xs ++ y ∷ [])
  pop_tail-stale xs y x p =
      let fore = (Forward-append (nexts m) xs (y ∷ x ∷ []) nopage p.forward).1 in
      let apart = Distinct-middle y xs (x ∷ []) p.queue.distinct in
      let out = not_mem-append nopage xs (y ∷ x ∷ []) p.queue.pages in
      let away = not_mem-append y xs (x ∷ []) apart.1 in
      let tail : l.tail ≡ x = p.queue.tail ∙ last_or-append nopage xs (y ∷ x ∷ []) in
      let stale : (popped_tail y).next ≡ x =
        ap (λ (q : Page). q.next) ((pop_tail-OnlyLinks y).3 (rw tail (ground (arith, away.1))))
        ∙ fore.0 in
      (
        stale,
        λ q.
            let end = (Forward-append (nexts popped_tail) xs (y ∷ []) nopage q.forward).1.0 in
            ground (arith, out.1, sym stale ∙ end),
      )
