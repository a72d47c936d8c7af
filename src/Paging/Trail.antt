-- ===== src/Paging/Trail.antt =====
-- The state of a search of `find_virtual_addr`: where its tables and cursors lead, and the way down.
use mjos.Base.{
  ℕ, zero, suc, ◌+◌, ◌*◌, ◌/◌, ◌%◌, ◌^◌, ◌≤◌, ◌<◌, ◌≡◌, ◌≢◌, inl, inr, refl, ap, sym, ◌∙◌, ltb,
  if◌then◌else◌, true, false, Bool-cases, eq-cases, Option, none, some, arith,
}
use mjos.Paging.{Words, write, present, entry_addr, slot, translate_from, page_translate}
use mjos.Paging.Walk.{write-at, write-other}
use mjos.Paging.Search.{
  phys_to_virt, mk_virtual, mmu_addr, Search, Outcome, found, null, failed, on, hit, through,
  entry_at, go_down, then_on,
}
use mjos.Paging.Cursor.{
  value, InRangeBut, InRange, mk_virtual-value, value-bound, pml_offset-cursor,
}

pub value-top : (c : ℕ → ℕ) → c 4 ≡ 512 → 2 ^ 36 ≤ value c
unfolding value
value-top c e = omega arith

module _ (t : Words) (pml from : ℕ) where
  -- The tables of the levels from `level` on are those that the cursors lead through.
  pub record IsTrail (level : ℕ) (tables cursor : ℕ → ℕ) : Type 0 where
    pub lo : 1 ≤ level
    pub hi : level ≤ 4
    pub top : tables 4 ≡ pml
    pub down :
        (k : ℕ)
        → level ≤ k
        → k < 4
        → (present (t (tables (suc k) + 8 * cursor (suc k))) ≡ true)
          × (tables k ≡ mmu_addr (t (tables (suc k) + 8 * cursor (suc k))))

  -- A search at a level, `v` pages on, whose cursor at `at_end` alone may be at its end.
  pub record IsAt (level at_end v : ℕ) (s : Search) : Type 0 where
    pub trail : IsTrail level s.tables s.cursor
    pub range : InRangeBut at_end s.cursor
    pub amount : value s.cursor ≡ v

  -- every page from `from` on and before page `n` is mapped
  abbrev pub IsMapped : ℕ → Type 0
  IsMapped n = (w : ℕ) → from ≤ w → w < n → page_translate t pml (w * 4096) ≢ none

  -- what the search has seen when it is `v` pages on
  pub record HasSeen (v : ℕ) : Type 0 where
    pub begun : from ≤ v
    pub mapped : IsMapped v

  -- a table outside the direct map
  abbrev pub Undirected : Type 0
  Undirected = (a : ℕ) × (present (t a) ≡ true) × (phys_to_virt (mmu_addr (t a)) ≡ none)

  -- what a search that has ended returns, and what holds where it goes on
  unfoldable pub Ends : (Search → Type 0) → Outcome → Type 0
  Ends P (found a) =
      (page_translate t pml a ≡ none)
      × (from ≤ a / 4096)
      × (a % 4096 ≡ 0)
      × (a < 2 ^ 48)
      × IsMapped (a / 4096)
  Ends P null = IsMapped (2 ^ 36)
  Ends P failed = Undirected
  Ends P (on s) = P s

  pub then_on-Ends :
      (P Q : Search → Type 0) (r : Outcome) (rest : Search → Outcome)
      → Ends P r
      → ((s : Search) → P s → Ends Q (rest s))
      → Ends Q (then_on r rest)
  unfolding Ends
  then_on-Ends P Q (found a) rest h f = h
  then_on-Ends P Q null rest h f = h
  then_on-Ends P Q failed rest h f = h
  then_on-Ends P Q (on s) rest h f = f s h

  module _ (small : (a : ℕ) → t a < 2 ^ 52) where
    entry_addr-mmu : (a : ℕ) → entry_addr (t a) ≡ mmu_addr (t a)
    unfolding entry_addr mmu_addr
    entry_addr-mmu a = let h = small a in omega arith

    slot-cursor :
        (s : Search) (k : ℕ)
        → 1 ≤ k
        → k ≤ 4
        → InRange s.cursor
        → t (slot (s.tables k) (mk_virtual s.cursor) k) ≡ entry_at t s k
    unfolding slot
    slot-cursor s k lo hi r = rw (pml_offset-cursor k s.cursor lo hi r) refl

    step-at :
        (l : ℕ) (s : Search)
        → suc l ≤ 4
        → InRange s.cursor
        → translate_from (suc l) t (s.tables (suc l)) (mk_virtual s.cursor) ≡ (
            if present (entry_at t s (suc l))
            then translate_from l t (entry_addr (entry_at t s (suc l))) (mk_virtual s.cursor)
            else none)
    unfolding translate_from
    step-at l s hi r = rw (slot-cursor s (suc l) (omega arith) hi r) refl

    -- The walk from above reaches the table of the search.
    translate-trail :
        (level k : ℕ) (s : Search)
        → IsTrail level s.tables s.cursor
        → InRange s.cursor
        → level ≤ k
        → k ≤ 4
        → translate_from k t (s.tables k) (mk_virtual s.cursor)
          ≡ translate_from level t (s.tables level) (mk_virtual s.cursor)
    translate-trail level zero s w r lo hi = let l = w.lo in absurd (omega arith)
    translate-trail level (suc k) s w r lo hi = elim (eq-cases (suc k) level) [
      | inl e ↦ ap (λ n. translate_from n t (s.tables n) (mk_virtual s.cursor)) e
      | inr ne ↦
          let (here, table) = w.down k (omega arith) (omega arith) in
          rw (step-at k s hi r) (
            rw here (
              rw (entry_addr-mmu (s.tables (suc k) + 8 * s.cursor (suc k)))
                (rw (sym table) (translate-trail level k s w r (omega arith) (omega arith)))))
    ]

    -- An address is translated as its table at the level of the search says.
    pub translate-at :
        (l : ℕ) (s : Search)
        → IsTrail (suc l) s.tables s.cursor
        → InRange s.cursor
        → page_translate t pml (mk_virtual s.cursor) ≡ (
            if present (entry_at t s (suc l))
            then translate_from l t (entry_addr (entry_at t s (suc l))) (mk_virtual s.cursor)
            else none)
    unfolding page_translate
    translate-at l s w r =
        let hi = w.hi in
        rw (sym w.top) (translate-trail (suc l) 4 s w r hi (omega arith) ∙ step-at l s hi r)

    pub hit-Ends :
        (P : Search → Type 0) (l v : ℕ) (s : Search)
        → IsAt (suc l) 0 v s
        → HasSeen v
        → present (entry_at t s (suc l)) ≡ false
        → Ends P (hit s)
    unfolding hit Ends
    hit-Ends P l v s at seen e =
        let a = mk_virtual s.cursor in
        let amount : a ≡ v * 4096 = mk_virtual-value s.cursor ∙ ap (λ n. n * 4096) at.amount in
        let bound = value-bound s.cursor at.range in
        let here = at.amount in
        let begun = seen.begun in
        let mapped = seen.mapped in
        let below : ltb (mk_virtual s.cursor) 0xffffffff81000000 ≡ true = ground arith in
        let free : page_translate t pml (mk_virtual s.cursor) ≡ none =
          translate-at l s at.trail at.range ∙ rw e refl in
        rw below (free, omega arith, omega arith, omega arith, λ w h h'. mapped w h (omega arith))

    -- the trail one level down
    descend-IsTrail :
        (l : ℕ) (tables cursor : ℕ → ℕ)
        → 1 ≤ l
        → IsTrail (suc l) tables cursor
        → present (t (tables (suc l) + 8 * cursor (suc l))) ≡ true
        → IsTrail l (write tables l (mmu_addr (t (tables (suc l) + 8 * cursor (suc l))))) cursor
    descend-IsTrail l tables cursor lo w e =
        let a = mmu_addr (t (tables (suc l) + 8 * cursor (suc l))) in
        let hi = w.hi in
        record {
          lo = lo;
          hi = omega arith;
          top = write-other tables l a 4 (omega arith) ∙ w.top;
          down = λ k h h'. rw (write-other tables l a (suc k) (omega arith)) (elim (eq-cases k l) [
            | inl same ↦ rw same (e, write-at tables l a)
            | inr ne ↦ rw (write-other tables l a k ne) (w.down k (omega arith) h')
          ]);
        }

    through-some :
        (P : Search → Type 0) (a : ℕ) (r : Outcome) (o : Option ℕ)
        → present (t a) ≡ true
        → phys_to_virt (mmu_addr (t a)) ≡ o
        → Ends P r
        → Ends P (through o r)
    unfolding Ends
    through-some P a r none e found_none h = (a, e, found_none)
    through-some P a r (some v) e found_some h = h

    through-Ends :
        (P : Search → Type 0) (a : ℕ) (r : Outcome)
        → present (t a) ≡ true
        → Ends P r
        → Ends P (through (phys_to_virt (mmu_addr (t a))) r)
    through-Ends P a r e h = through-some P a r (phys_to_virt (mmu_addr (t a))) e refl h

    -- The way down to the lowest level.
    pub go_down-Ends :
        (l v : ℕ) (s : Search) → IsAt (suc l) 0 v s → HasSeen v → Ends (IsAt 1 0 v) (go_down l t s)
    unfolding go_down Ends
    go_down-Ends zero v s at seen = record {
      trail = at.trail;
      range = at.range;
      amount = at.amount;
    }
    go_down-Ends (suc l) v s at seen =
        let x = s.tables (suc (suc l)) + 8 * s.cursor (suc (suc l)) in
        let lo = at.trail.lo in
        let hi = at.trail.hi in
        elim (Bool-cases (present (t x))) [
          | inl e ↦ rw e (
              through-Ends (IsAt 1 0 v) x _ e (
                go_down-Ends l v _
                  (record {
                    trail = descend-IsTrail (suc l) s.tables s.cursor (omega arith) at.trail e;
                    range = at.range;
                    amount = at.amount;
                  })
                  seen))
          | inr e ↦ rw e (hit-Ends (IsAt 1 0 v) (suc l) v s at seen e)
        ]
