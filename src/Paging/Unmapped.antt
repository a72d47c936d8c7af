-- ===== src/Paging/Unmapped.antt =====
-- The parts of `find_virtual_addr`: the scan of a lowest table, and the carrying of its cursors.
use Prim.Native.Nat.{bit_or}
use mjos.Base.{
  ℕ, zero, suc, ◌+◌, ◌*◌, ◌%◌, ◌^◌, ◌≤◌, ◌<◌, ◌≡◌, ◌≢◌, inl, inr, refl, ap, sym, ◌∙◌, ◌==◌, ==_iff,
  true, false, Bool-cases, eq-cases, none, some, ◌&&◌, arith,
}
use mjos.Paging.{Words, write, present, entry_addr, translate_from, page_translate}
use mjos.Paging.Walk.{write-at, write-other}
use mjos.Paging.Search.{mk_virtual, Search, null, carry, entry_at, scan, climb}
use mjos.Paging.Cursor.{
  value, InRangeBut, InRange, mk_virtual-value, carry-value, carry-other, carry-next,
  carry-InRangeBut, advance-value,
}
use mjos.Paging.Trail.{IsTrail, IsAt, HasSeen, Ends, value-top, translate-at, hit-Ends}

module _ (t : Words) (pml from : ℕ) (small : (a : ℕ) → t a < 2 ^ 52) where
  -- the lowest cursor at its end, and the next cursor not yet carried
  pub record IsFull (v : ℕ) (s : Search) : Type 0 where
    pub at : IsAt t pml from 1 1 v s
    pub full : s.cursor 1 ≡ 512
    pub seen : HasSeen t pml from v

  pub low-InRange : (s : Search) → InRangeBut 1 s.cursor → s.cursor 1 < 512 → InRange s.cursor
  low-InRange s r h k lo hi ne = elim (eq-cases k 1) [ inl e ↦ rw e h | inr e ↦ r k lo hi e ]

  pub loosen : (v : ℕ) (s : Search) → IsAt t pml from 1 0 v s → IsAt t pml from 1 1 v s
  loosen v s at = record {
    trail = at.trail;
    range = λ k lo hi ne. at.range k lo hi (omega arith);
    amount = at.amount;
  }

  -- The trail at the lowest level does not use the lowest cursor.
  low-IsTrail :
      (tables cursor : ℕ → ℕ) (c : ℕ)
      → IsTrail t pml from 1 tables cursor
      → IsTrail t pml from 1 tables (write cursor 1 c)
  low-IsTrail tables cursor c w = record {
    lo = w.lo;
    hi = w.hi;
    top = w.top;
    down = λ k h h'. rw (write-other cursor 1 c (suc k) (omega arith)) (w.down k h h');
  }

  some-ne_none : (x : ℕ) → some x ≢ none
  some-ne_none x e = ground (arith, e)

  -- a page more whose entry in the lowest table is present
  low-HasSeen :
      (v : ℕ) (s : Search)
      → IsAt t pml from 1 0 v s
      → present (entry_at t s 1) ≡ true
      → HasSeen t pml from v
      → HasSeen t pml from (v + 1)
  unfolding translate_from
  low-HasSeen v s at e seen =
      let begun = seen.begun in
      let frame = bit_or (entry_addr (entry_at t s 1)) (mk_virtual s.cursor % 4096) in
      let page : mk_virtual s.cursor ≡ v * 4096 =
        mk_virtual-value s.cursor ∙ ap (λ n. n * 4096) at.amount in
      let walk : page_translate t pml (mk_virtual s.cursor) ≡ some frame =
        translate-at t pml from small 0 s at.trail at.range ∙ rw e refl in
      let here : page_translate t pml (v * 4096) ≢ none =
        λ none_here. some-ne_none frame (sym walk ∙ ap (page_translate t pml) page ∙ none_here) in
      record {
        begun = omega arith;
        mapped = λ w h h'. elim (eq-cases w v) [
          | inl same ↦ rw same here
          | inr ne ↦ seen.mapped w h (omega arith)
        ];
      }

  low-advance :
      (v : ℕ) (s : Search)
      → IsAt t pml from 1 1 v s
      → IsAt t pml from 1 1 (v + 1) (record s { cursor = write s.cursor 1 (s.cursor 1 + 1) })
  low-advance v s at = record {
    trail = low-IsTrail s.tables s.cursor (s.cursor 1 + 1) at.trail;
    range = λ k lo hi ne. rw (write-other s.cursor 1 (s.cursor 1 + 1) k ne) (at.range k lo hi ne);
    amount = advance-value s.cursor ∙ ap (λ n. n + 1) at.amount;
  }

  pub scan-Ends :
      (n v u : ℕ) (s : Search)
      → IsAt t pml from 1 1 v s
      → s.cursor 1 + n ≡ 512
      → v + n ≡ u
      → HasSeen t pml from v
      → Ends t pml from (IsFull u) (scan n t s)
  unfolding scan Ends
  scan-Ends zero v u s at e eq seen =
      let same : v ≡ u = omega arith in
      record {
        at = record { trail = at.trail; range = at.range; amount = at.amount ∙ same };
        full = omega arith;
        seen = rw (sym same) seen;
      }
  scan-Ends (suc n) v u s at e eq seen =
      let inside : IsAt t pml from 1 0 v s = record {
        trail = at.trail;
        range = low-InRange s at.range (omega arith);
        amount = at.amount;
      } in
      let next = write-at s.cursor 1 (s.cursor 1 + 1) in
      elim (Bool-cases (present (entry_at t s 1))) [
        | inl p ↦ rw p (
            scan-Ends n (v + 1) u _ (low-advance v s at) (omega arith) (omega arith)
              (low-HasSeen v s inside p seen))
        | inr p ↦ rw p (hit-Ends t pml from small (IsFull u) 0 v s inside seen p)
      ]

  -- the trail one level up, with the cursors carried
  carry-IsTrail :
      (l : ℕ) (tables cursor : ℕ → ℕ)
      → l ≤ 3
      → IsTrail t pml from l tables cursor
      → IsTrail t pml from (suc l) tables (carry l cursor)
  carry-IsTrail l tables cursor hi w = record {
    lo = omega arith;
    hi = omega arith;
    top = w.top;
    down = λ k h h'.
        rw (carry-other l (suc k) cursor (omega arith) (omega arith)) (w.down k (omega arith) h');
  }

  -- a search that goes on, `v` pages on
  pub record IsOn (v : ℕ) (s : Search) : Type 0 where
    pub at : IsAt t pml from s.level 0 v s
    pub seen : HasSeen t pml from v

  full-InRange : (l : ℕ) (c : ℕ → ℕ) → InRangeBut l c → c l < 512 → InRange c
  full-InRange l c r h k lo hi ne = elim (eq-cases k l) [ inl e ↦ rw e h | inr e ↦ r k lo hi e ]

  null-Ends :
      (v : ℕ) (P : Search → Type 0) (c : ℕ → ℕ)
      → value c ≡ v
      → c 4 ≡ 512
      → HasSeen t pml from v
      → Ends t pml from P null
  unfolding Ends
  null-Ends v P c e full seen w h h' = let top = value-top c full in seen.mapped w h (omega arith)

  carried-room :
      (l : ℕ) (c : ℕ → ℕ)
      → c (suc l) ≤ 512
      → (suc l == 4) && (c 4 == 512) ≡ false
      → suc l ≡ 4
      → c (suc l) < 512
  carried-room l c lim more e = let same : c (suc l) ≡ c 4 = ap c e in ground (arith, more)

  pub climb-Ends :
      (k l v : ℕ) (s : Search)
      → k + l ≡ 4
      → IsAt t pml from l l v s
      → s.cursor l ≤ 512
      → (l ≡ 4 → s.cursor l < 512)
      → HasSeen t pml from v
      → Ends t pml from (IsOn v) (climb k l s)
  unfolding climb Ends
  climb-Ends zero l v s e at lim top seen = record {
    at = record {
      trail = at.trail;
      range = full-InRange l s.cursor at.range (top (omega arith));
      amount = at.amount;
    };
    seen = seen;
  }
  climb-Ends (suc k) l v s e at lim top seen =
      let lo = at.trail.lo in
      let c = carry l s.cursor in
      elim (Bool-cases (s.cursor l == 512)) [
        | inl full ↦
            let amount : value c ≡ v =
              carry-value l s.cursor lo (omega arith) ((==_iff (s.cursor l) 512).0 full)
              ∙ at.amount in
            let room = at.range (suc l) (omega arith) (omega arith) (omega arith) in
            let next = carry-next l s.cursor in
            rw full (elim (Bool-cases ((suc l == 4) && (c 4 == 512))) [
              | inl last ↦ rw last (null-Ends v (IsOn v) c amount (ground (arith, last)) seen)
              | inr more ↦ rw more (
                  climb-Ends k (suc l) v _ (omega arith)
                    (record {
                      trail = carry-IsTrail l s.tables s.cursor (omega arith) at.trail;
                      range = carry-InRangeBut l s.cursor at.range;
                      amount = amount;
                    })
                    (omega arith) (carried-room l c (omega arith) more) seen)
            ])
        | inr part ↦
            let below : s.cursor l < 512 = ground arith in
            rw part (record {
              at = record {
                trail = at.trail;
                range = full-InRange l s.cursor at.range below;
                amount = at.amount;
              };
              seen = seen;
            })
      ]
