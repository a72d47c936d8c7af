-- ===== src/Pages/Links.antt =====
-- What it means that the frames of a list are linked: lists that hold by the `prev` chain, and
-- lists that are linked both ways.
use mjos.Base.{◌≡◌, ap, ◌≢◌, List, ◌∷◌, arith, ◌∈◌, ◌∉◌, Distinct, ne_of_mem}
use mjos.Chain.{first_or, last_or, last_or-mem, Backward, Forward, Backward-frame, Forward-frame}
use mjos.Pages.{Pfn, Pages, Page, PageList, nopage, update}

-- The links of all frames.
abbrev pub nexts : Pages → Pfn → Pfn
nexts m p = (m p).next

abbrev pub prevs : Pages → Pfn → Pfn
prevs m p = (m p).prev

-- The list `l` holds the pages `xs` as far as its ends and the `prev` chain say.
pub record IsQueue (m : Pages) (l : PageList) (xs : List Pfn) : Type 0 where
  pub head : l.head ≡ first_or xs nopage
  pub tail : l.tail ≡ last_or nopage xs
  pub backward : Backward (prevs m) nopage xs
  pub distinct : Distinct xs
  pub pages : nopage ∉ xs

-- The list `l` holds the pages `xs`, linked both ways.
pub record IsPageList (m : Pages) (l : PageList) (xs : List Pfn) : Type 0 where
  pub queue : IsQueue m l xs
  pub forward : Forward (nexts m) xs nopage

-- `m'` differs from `m` at most at the pages of `xs`, and there in the links only.
abbrev pub OnlyLinks : Pages → Pages → List Pfn → Type 0
OnlyLinks m m' xs =
    (a : Pfn)
    → ((m' a).state ≡ (m a).state)
      × ((m' a).obj ≡ (m a).obj)
      × ((m' a).inuse ≡ (m a).inuse)
      × (a ∉ xs → m' a ≡ m a)

pub update_self : (m : Pages) (p : Pfn) (v : Page) → update m p v p ≡ v
unfolding update
update_self m p v = ground arith

pub update-ne : (m : Pages) (p : Pfn) (v : Page) (a : Pfn) → a ≢ p → update m p v a ≡ m a
unfolding update
update-ne m p v a h = ground arith

-- The last page of a list that is not empty is a page.
pub last_or-page : (x : Pfn) (xs : List Pfn) → nopage ∉ x ∷ xs → last_or x xs ≢ nopage
last_or-page x xs out = ne_of_mem (last_or x xs) nopage (x ∷ xs) (last_or-mem x x xs) out

-- A list stays one where its pages are left alone.
pub IsQueue-frame :
    (m m' : Pages) (l : PageList) (xs : List Pfn)
    → ((a : Pfn) → a ∈ xs → m' a ≡ m a)
    → IsQueue m l xs
    → IsQueue m' l xs
IsQueue-frame m m' l xs same q = record {
  head = q.head;
  tail = q.tail;
  backward =
      Backward-frame (prevs m) (prevs m') nopage xs (λ a i. ap (λ (p : Page). p.prev) (same a i))
        q.backward;
  distinct = q.distinct;
  pages = q.pages;
}

pub IsPageList-frame :
    (m m' : Pages) (l : PageList) (xs : List Pfn)
    → ((a : Pfn) → a ∈ xs → m' a ≡ m a)
    → IsPageList m l xs
    → IsPageList m' l xs
IsPageList-frame m m' l xs same p = record {
  queue = IsQueue-frame m m' l xs same p.queue;
  forward =
      Forward-frame (nexts m) (nexts m') xs nopage (λ a i. ap (λ (q : Page). q.next) (same a i))
        p.forward;
}
