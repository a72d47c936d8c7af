-- ===== src/Pages.antt =====
-- kernel/include/memory/page.h and the page lists of kernel/memory/page.c: the array of page
-- frames, and the lists that are threaded through the frames' `next` and `prev` numbers.
-- `page_arr` is a function from frame numbers to frames; an operation takes it beside the list
-- and returns both.
pub mod Links
pub mod Push
pub mod Pop
pub mod Remove
use mjos.Base.{ℕ, ◌-◌, ◌^◌, ◌==◌, ◌&&◌, if◌then◌else◌, Bool}

-- `PageState`
pub data PageState : Type 0 where
  pg_available pg_kernel pg_dma pg_reserve pg_pool pg_normal : PageState

abbrev pub Pfn : Type 0
Pfn = ℕ

-- `NOPAGE`, which is (u32)(-1).
abbrev pub nopage : Pfn
nopage = 2 ^ 32 - 1

-- `Page`
pub record Page : Type 0 where
  pub state : PageState
  pub next : Pfn
  pub prev : Pfn
  pub obj : ℕ
  pub inuse : ℕ

abbrev pub Pages : Type 0
Pages = Pfn → Page

unfoldable pub update : Pages → Pfn → Page → Pages
update m p v a = if a == p then v else m a

abbrev pub set_next : Pages → Pfn → Pfn → Pages
set_next m p q = update m p (record (m p) { next = q })

abbrev pub set_prev : Pages → Pfn → Pfn → Pages
set_prev m p q = update m p (record (m p) { prev = q })

abbrev pub set_state : Pages → Pfn → PageState → Pages
set_state m p s = update m p (record (m p) { state = s })

-- `PageList`
pub record PageList : Type 0 where
  pub head : Pfn
  pub tail : Pfn

abbrev pub page_list : Pfn → Pfn → PageList
page_list h t = record { head = h; tail = t }

-- `pglist_is_empty`
unfoldable pub pglist_is_empty : PageList → Bool
pglist_is_empty l = (l.head == nopage) && (l.tail == nopage)

-- `pglist_push_head`
unfoldable pub pglist_push_head : PageList → Pfn → Pages → PageList × Pages
pglist_push_head l page m =
    let m1 = set_next (set_prev m page nopage) page l.head in
    let m2 = (if l.head == nopage then m1 else set_prev m1 l.head page) in
    (page_list page (if l.tail == nopage then page else l.tail), m2)

-- `pglist_push_tail`
unfoldable pub pglist_push_tail : PageList → Pfn → Pages → PageList × Pages
pglist_push_tail l page m =
    let m1 = set_next (set_prev m page l.tail) page nopage in
    let m2 = (if l.tail == nopage then m1 else set_next m1 l.tail page) in
    (page_list (if l.head == nopage then page else l.head) page, m2)

-- `pglist_pop_head`
unfoldable pub pglist_pop_head : PageList → Pages → Pfn × PageList × Pages
pglist_pop_head l m =
    let page = l.head in
    let head' = (m page).next in
    if page == nopage then (nopage, l, m) else (
      page,
      page_list head' (if head' == nopage then nopage else l.tail),
      set_prev (set_next m page nopage) page nopage,
    )

-- `pglist_pop_tail`
unfoldable pub pglist_pop_tail : PageList → Pages → Pfn × PageList × Pages
pglist_pop_tail l m =
    let page = l.tail in
    let tail' = (m page).prev in
    if page == nopage then (nopage, l, m) else (
      page,
      page_list (if tail' == nopage then nopage else l.head) tail',
      set_prev (set_next m page nopage) page nopage,
    )

-- `pglist_remove`, for a page that is not `NOPAGE`. Each branch reads the frame again, since the
-- first write may have changed it.
unfoldable pub pglist_remove : PageList → Pfn → Pages → PageList × Pages
pglist_remove l page m =
    let at_head = (m page).prev == nopage in
    let head' = (if at_head then (m page).next else l.head) in
    let m1 = (if at_head then m else set_next m (m page).prev (m page).next) in
    let at_tail = (m1 page).next == nopage in
    let tail' = (if at_tail then (m1 page).prev else l.tail) in
    let m2 = (if at_tail then m1 else set_prev m1 (m1 page).next (m1 page).prev) in
    (page_list head' tail', set_next (set_prev m2 page nopage) page nopage)
