-- ===== src/Paging/First.antt =====
-- What `find_virtual_addr` returns: the first page that is not mapped.
use mjos.Base.{
  ℕ, zero, suc, ◌+◌, ◌-◌, ◌/◌, ◌%◌, ◌^◌, ◌≤◌, ◌<◌, ◌≡◌, ◌≢◌, refl, sym, Option, none, some, arith,
}
use mjos.Paging.{Words, page_translate}
use mjos.Paging.Search.{
  phys_to_virt, mk_frame, Search, Outcome, found, null, failed, on, through, go_down, scan, climb,
  search_round, search, find_virtual_addr,
}
use mjos.Paging.Cursor.{value-bound, mk_frame-InRange, mk_frame-value}
use mjos.Paging.Trail.{IsAt, IsMapped, HasSeen, Undirected, Ends, then_on-Ends, go_down-Ends}
use mjos.Paging.Unmapped.{IsFull, IsOn, loosen, scan-Ends, climb-Ends}

-- What a search from page `from` on may return: the first page that is not mapped, `NULL` where every
-- page is mapped, or the failed assertion where an entry leads out of the direct map. It does not go on.
unfoldable pub IsFirst : Words → ℕ → ℕ → Outcome → Type 0
IsFirst t pml from (found a) =
    (page_translate t pml a ≡ none)
    × (from ≤ a / 4096)
    × (a % 4096 ≡ 0)
    × (a < 2 ^ 48)
    × IsMapped t pml from (a / 4096)
IsFirst t pml from null = IsMapped t pml from (2 ^ 36)
IsFirst t pml from failed = Undirected t pml from
IsFirst t pml from (on s) = ⊥

module _ (t : Words) (pml from : ℕ) where
  Ends-map :
      (P Q : Search → Type 0) (r : Outcome)
      → Ends t pml from P r
      → ((s : Search) → P s → Ends t pml from Q (on s))
      → Ends t pml from Q r
  unfolding Ends
  Ends-map P Q (found a) h f = h
  Ends-map P Q null h f = h
  Ends-map P Q failed h f = h
  Ends-map P Q (on s) h f = f s h

  Ends-IsFirst : (r : Outcome) → Ends t pml from (λ s. ⊥) r → IsFirst t pml from r
  unfolding Ends IsFirst
  Ends-IsFirst (found a) h = h
  Ends-IsFirst null h = h
  Ends-IsFirst failed h = h
  Ends-IsFirst (on s) h = h

  module _ (small : (a : ℕ) → t a < 2 ^ 52) where
    -- a round moves the search on
    Next : ℕ → Search → Type 0
    Next v s = (u : ℕ) × (v < u) × IsOn t pml from small u s

    climbed :
        (v : ℕ) (s1 s2 : Search)
        → s1.cursor 1 < 512
        → IsFull t pml from small (v + (512 - s1.cursor 1)) s2
        → Ends t pml from (Next v) (climb 3 1 s2)
    unfolding Ends Next
    climbed v s1 s2 room full =
        let u = v + (512 - s1.cursor 1) in
        let at_end = full.full in
        Ends-map (IsOn t pml from small u) (Next v) (climb 3 1 s2)
          (climb-Ends t pml from small 3 1 u s2 refl full.at (omega arith)
            (λ e. absurd (omega arith)) full.seen)
          (λ s3 h. (u, omega arith, h))

    search_round-Ends :
        (v : ℕ) (s : Search)
        → IsAt t pml from s.level 0 v s
        → HasSeen t pml from v
        → Ends t pml from (Next v) (search_round t s)
    unfolding search_round
    search_round-Ends v s at seen =
        let lo = at.trail.lo in
        let level : s.level ≡ suc (s.level - 1) = omega arith in
        then_on-Ends t pml from (IsAt t pml from 1 0 v) (Next v) (go_down (s.level - 1) t s) _
          (go_down-Ends t pml from small (s.level - 1) v s (rw (sym level) at) seen)
          (λ s1 h1.
            let room = h1.range 1 (omega arith) (omega arith) (omega arith) in
            then_on-Ends t pml from (IsFull t pml from small (v + (512 - s1.cursor 1))) (Next v)
              (scan (512 - s1.cursor 1) t s1) _
              (scan-Ends t pml from small (512 - s1.cursor 1) v _ s1
                (loosen t pml from small v s1 h1) (omega arith) refl seen)
              (λ s2 full. climbed v s1 s2 room full))

    search-Ends :
        (fuel v : ℕ) (s : Search)
        → 2 ^ 36 ≤ v + fuel
        → IsOn t pml from small v s
        → Ends t pml from (λ s'. ⊥) (search fuel t s)
    unfolding search Ends Next
    search-Ends zero v s enough o =
        let bound = value-bound s.cursor o.at.range in
        let amount = o.at.amount in absurd (omega arith)
    search-Ends (suc fuel) v s enough o =
        then_on-Ends t pml from (Next v) (λ s'. ⊥) (search_round t s) (search fuel t)
          (search_round-Ends v s o.at o.seen)
          (λ s' (u, more, o'). search-Ends fuel u s' (omega arith) o')

opened : (o : Option ℕ) (r : Outcome) → o ≢ none → through o r ≡ r
opened none r h = absurd (h refl)
opened (some v) r h = refl

-- the state that the search begins in
start-IsOn :
    (t : Words) (pml above : ℕ) (small : (a : ℕ) → t a < 2 ^ 52)
    → IsOn t pml
        (above % 2 ^ 48 / 4096)
        small
        (above % 2 ^ 48 / 4096)
        (record { level = 4; cursor = mk_frame above; tables = λ level. pml })
start-IsOn t pml above small = record {
  at = record {
    trail = record {
      lo = omega arith;
      hi = omega arith;
      top = refl;
      down = λ k h h'. absurd (omega arith);
    };
    range = mk_frame-InRange above;
    amount = mk_frame-value above;
  };
  seen = record { begun = omega arith; mapped = λ w h h'. absurd (omega arith) };
}

-- `find_virtual_addr`, for entries without bits above the 52 of an address and a top table in the direct
-- map: 2 ^ 36 rounds are enough for it to return, whatever the tables hold. An address that it
-- returns begins the first page from `above` on (of the 48 bits that are translated) for which
-- `page_translate` finds nothing; it returns `NULL` only if all these pages are mapped, and its
-- assertion fails only if an entry that is present leads out of the direct map.
pub find_virtual_addr-IsFirst :
    (fuel : ℕ) (t : Words) (pml above : ℕ)
    → 2 ^ 36 ≤ fuel
    → ((a : ℕ) → t a < 2 ^ 52)
    → phys_to_virt pml ≢ none
    → IsFirst t pml (above % 2 ^ 48 / 4096) (find_virtual_addr fuel t pml above)
unfolding find_virtual_addr
find_virtual_addr-IsFirst fuel t pml above enough small direct =
    let from = above % 2 ^ 48 / 4096 in
    let start : Search = record { level = 4; cursor = mk_frame above; tables = λ level. pml } in
    rw (opened (phys_to_virt pml) (search fuel t start) direct) (
      Ends-IsFirst t pml from (search fuel t start)
        (search-Ends t pml from small fuel from start (omega arith) (start-IsOn t pml above small)))
