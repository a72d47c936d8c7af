-- ===== src/Pages/Push.antt =====
-- `pglist_push_head` and `pglist_push_tail` of kernel/memory/page.c.
use mjos.Base.{
  ◌≡◌, refl, sym, ◌∙◌, ◌≢◌, List, [], ◌∷◌, ◌++◌, append-nil, arith, has-append, ◌∉◌, Distinct,
  middle-Distinct, ne_of_mem,
}
use mjos.Pages.{Pfn, Pages, PageList, nopage, update, pglist_push_head, pglist_push_tail}
use mjos.Chain.{
  first_or, last_or, first_or-ne, last_or-ne, last_or-snoc, Backward, Forward, Backward-frame,
  Forward-frame, append-Backward, append-Forward, Forward-set_last,
}
use mjos.Pages.Links.{nexts, prevs, last_or-page, IsQueue, IsPageList, OnlyLinks}

-- What a push at the head of a list that is not empty does to each frame.
module _ (m : Pages) (l : PageList) (page : Pfn) where
  abbrev pushed_head : Pages
  pushed_head = (pglist_push_head l page m).1

  abbrev pushed_tail : Pages
  pushed_tail = (pglist_push_tail l page m).1

  -- `pglist_push_head` changes links only, and only at the page and at the old head.
  push_head-OnlyLinks : OnlyLinks m pushed_head (page ∷ l.head ∷ [])
  unfolding pglist_push_head update
  push_head-OnlyLinks a = (ground arith, ground arith, ground arith, ground arith)

  push_head-next : (a : Pfn) → a ≢ page → (pushed_head a).next ≡ (m a).next
  unfolding pglist_push_head update
  push_head-next a n = ground arith

  push_head-prev : (a : Pfn) → a ≢ page → a ≢ l.head → (pushed_head a).prev ≡ (m a).prev
  unfolding pglist_push_head update
  push_head-prev a n k = ground arith

  push_head-page :
      page ≢ l.head → ((pushed_head page).prev ≡ nopage) × ((pushed_head page).next ≡ l.head)
  unfolding pglist_push_head update
  push_head-page n = (ground arith, ground arith)

  push_head-head : (a : Pfn) → a ≡ l.head → a ≢ nopage → (pushed_head a).prev ≡ page
  unfolding pglist_push_head update
  push_head-head a e n = ground arith

  pub push_tail-OnlyLinks : OnlyLinks m pushed_tail (page ∷ l.tail ∷ [])
  unfolding pglist_push_tail update
  push_tail-OnlyLinks a = (ground arith, ground arith, ground arith, ground arith)

  push_tail-prev : (a : Pfn) → a ≢ page → (pushed_tail a).prev ≡ (m a).prev
  unfolding pglist_push_tail update
  push_tail-prev a n = ground arith

  push_tail-next : (a : Pfn) → a ≢ page → a ≢ l.tail → (pushed_tail a).next ≡ (m a).next
  unfolding pglist_push_tail update
  push_tail-next a n k = ground arith

  push_tail-page :
      page ≢ l.tail → ((pushed_tail page).prev ≡ l.tail) × ((pushed_tail page).next ≡ nopage)
  unfolding pglist_push_tail update
  push_tail-page n = (ground arith, ground arith)

  push_tail-tail : (a : Pfn) → a ≡ l.tail → a ≢ nopage → (pushed_tail a).next ≡ page
  unfolding pglist_push_tail update
  push_tail-tail a e n = ground arith

module _ (m : Pages) (l : PageList) (page : Pfn) (ne : page ≢ nopage) where
  push_head-Backward :
      (xs : List Pfn)
      → page ∉ xs
      → l.head ≡ first_or xs nopage
      → nopage ∉ xs
      → Distinct xs
      → Backward (prevs m) nopage xs
      → Backward (prevs (pushed_head m l page)) nopage (page ∷ xs)
  push_head-Backward [] out e n u h = ((push_head-page m l page (ground arith)).0, tt)
  push_head-Backward (y ∷ ys) out e n u h = (
    (push_head-page m l page (ground arith)).0,
    (
      push_head-head m l page y (sym e) (ground arith),
      Backward-frame (prevs m) (prevs (pushed_head m l page)) y ys
          (λ a i.
            push_head-prev m l page a (ne_of_mem a page ys i (ground arith))
              (rw e (ne_of_mem a y ys i u.0)))
          h.1,
    ),
  )

  push_head-ends :
      (xs : List Pfn)
      → nopage ∉ xs
      → l.tail ≡ last_or nopage xs
      → ((pglist_push_head l page m).0.head ≡ page)
        × ((pglist_push_head l page m).0.tail ≡ last_or page xs)
  unfolding pglist_push_head
  push_head-ends [] n e = (refl, ground arith)
  push_head-ends (y ∷ ys) n e = (refl, ground (arith, last_or-page y ys n))

  -- Pushing at the head keeps a list that holds by its `prev` chain, with the page in front.

  pub push_head-IsQueue :
      (xs : List Pfn)
      → page ∉ xs
      → IsQueue m l xs
      → IsQueue (pushed_head m l page) (pglist_push_head l page m).0 (page ∷ xs)
  push_head-IsQueue xs out q = record {
    head = (push_head-ends xs q.pages q.tail).0;
    tail = (push_head-ends xs q.pages q.tail).1;
    backward = push_head-Backward xs out q.head q.pages q.distinct q.backward;
    distinct = (out, q.distinct);
    pages = ground arith;
  }

  -- Pushing at the head of a list puts the page in front.
  pub push_head-IsPageList :
      (xs : List Pfn)
      → page ∉ xs
      → IsPageList m l xs
      → IsPageList (pushed_head m l page) (pglist_push_head l page m).0 (page ∷ xs)
  push_head-IsPageList xs out p = record {
    queue = push_head-IsQueue xs out p.queue;
    forward = (
      (push_head-page m l page (rw p.queue.head (first_or-ne page xs nopage out ne))).1
          ∙ p.queue.head,
      Forward-frame (nexts m) (nexts (pushed_head m l page)) xs nopage
          (λ a i. push_head-next m l page a (ne_of_mem a page xs i out)) p.forward,
    );
  }

  push_tail-ends :
      (xs : List Pfn)
      → nopage ∉ xs
      → l.head ≡ first_or xs nopage
      → ((pglist_push_tail l page m).0.head ≡ first_or (xs ++ page ∷ []) nopage)
        × ((pglist_push_tail l page m).0.tail ≡ page)
  unfolding pglist_push_tail
  push_tail-ends [] n e = (ground arith, refl)
  push_tail-ends (y ∷ ys) n e = (ground arith, refl)

  push_tail-Forward :
      (xs : List Pfn)
      → page ∉ xs
      → l.tail ≡ last_or nopage xs
      → nopage ∉ xs
      → Distinct xs
      → Forward (nexts m) xs nopage
      → Forward (nexts (pushed_tail m l page)) xs page
  push_tail-Forward [] out e n u h = tt
  push_tail-Forward (y ∷ ys) out e n u h =
      Forward-set_last (nexts m) (nexts (pushed_tail m l page)) nopage page y ys
        (push_tail-tail m l page (last_or y ys) (sym e) (last_or-page y ys n))
        (λ a i k. push_tail-next m l page a (ne_of_mem a page (y ∷ ys) i out) (rw e k)) u h

  -- Pushing at the tail of a list puts the page behind.
  pub push_tail-IsPageList :
      (xs : List Pfn)
      → page ∉ xs
      → IsPageList m l xs
      → IsPageList (pushed_tail m l page) (pglist_push_tail l page m).0 (xs ++ page ∷ [])
  push_tail-IsPageList xs out p =
      let new = push_tail-page m l page (rw p.queue.tail (last_or-ne page nopage xs out ne)) in
      record {
        queue = record {
          head = (push_tail-ends xs p.queue.pages p.queue.head).0;
          tail =
              (push_tail-ends xs p.queue.pages p.queue.head).1 ∙ sym (last_or-snoc nopage xs page);
          backward =
              append-Backward (prevs (pushed_tail m l page)) nopage xs (page ∷ [])
                (Backward-frame (prevs m) (prevs (pushed_tail m l page)) nopage xs
                  (λ a i. push_tail-prev m l page a (ne_of_mem a page xs i out)) p.queue.backward)
                (new.0 ∙ p.queue.tail, tt);
          distinct =
              middle-Distinct page xs [] (rw append-nil p.queue.distinct) (rw append-nil out);
          pages = rw has-append (ground (arith, p.queue.pages, ne));
        };
        forward =
            append-Forward (nexts (pushed_tail m l page)) xs (page ∷ []) nopage
              (push_tail-Forward xs out p.queue.tail p.queue.pages p.queue.distinct p.forward)
              (new.1, tt);
      }

  -- A push at the head changes no state, and no frame but those of the list and the page.
  pub push_head-frame :
      (xs : List Pfn)
      → IsQueue m l xs
      → (c : Pfn)
      → ((pushed_head m l page c).state ≡ (m c).state)
        × (c ∉ page ∷ xs → c ≢ nopage → pushed_head m l page c ≡ m c)
  push_head-frame xs q c = (
    (push_head-OnlyLinks m l page c).0,
    λ out n.
        (push_head-OnlyLinks m l page c).3
          (rw q.head (ground (arith, first_or-ne c xs nopage, out))),
  )
