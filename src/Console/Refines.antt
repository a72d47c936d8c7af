-- ===== src/Console/Refines.antt =====
-- The console shows the paper that the text is written on.
use mjos.Base.{
  ℕ, ap, sym, ◌∙◌, ◌+◌, ◌-◌, ◌*◌, ◌/◌, ◌%◌, ◌^◌, ◌≤◌, ◌<◌, ◌≡◌, ◌≢◌, ◌⊎◌, inl, inr, refl, ◌==◌, leb,
  Bool-cases, true, false, arith,
}
use mjos.CString.{store}
use mjos.Console.{
  Console, plain_color, vga_entry, console_putentryat, scroll, next_row, back, put_visible, end_row,
  end_screen, settle,
}
use mjos.Console.Scroll.{scroll-up, scroll-last}
use mjos.Console.Paper.{Paper, Held, Shows, follow, write_on}

-- The screen moves up with the paper.
scroll-cells :
    (st : Console) (p : Paper) (i : ℕ)
    → Held st p
    → i < 2000
    → (scroll st).buffer i ≡ p.cells ((p.top + 1) * 80 + i)
scroll-cells st p i h l =
    let split : (i < 1920) ⊎ (1920 ≤ i) = omega arith in
    let down : p.top * 80 + (i + 80) ≡ (p.top + 1) * 80 + i = omega arith in
    elim split [
      | inl up ↦ scroll-up st i up ∙ h.cells (i + 80) (omega arith) ∙ ap p.cells down
      | inr last ↦ scroll-last st i last l ∙ sym (h.fresh ((p.top + 1) * 80 + i) (omega arith))
    ]

scroll-color : (st : Console) → (scroll st).color ≡ plain_color
unfolding scroll
scroll-color st = refl

scroll-Held :
    (st : Console) (p : Paper)
    → st.row ≡ 25
    → st.column < 80
    → Held st p
    → Held
        (record (scroll st) { column = 0; row = 24 })
        (record p { cursor = p.cursor / 80 * 80; top = p.top + 1; color = plain_color })
scroll-Held st p e c h = record {
  cursor = let k = h.cursor in omega arith;
  color = scroll-color st;
  cells = λ i l. scroll-cells st p i h l;
  fresh = λ j l. h.fresh j (omega arith);
}

end_row-Held :
    (st : Console) (p : Paper)
    → (st.row < 25) ⊎ (st.column < 80)
    → st.row ≤ 25
    → st.column ≤ 80
    → Held st p
    → Held (end_row st) p × ((end_row st).row ≤ 25) × ((end_row st).column < 80)
unfolding end_row
end_row-Held st p b r c h = elim (Bool-cases (st.column == 80)) [
  | inl e ↦
      let k = h.cursor in
      let low : st.row < 25 = ground (arith, e, b) in
      rw e (
        record { cursor = ground (arith, k, e); color = h.color; cells = h.cells; fresh = h.fresh },
        omega arith,
        omega arith,
      )
  | inr e ↦ rw e (h, omega arith, ground (arith, e))
]

end_screen-Shows :
    (st : Console) (p : Paper)
    → st.row ≤ 25
    → st.column < 80
    → Held st p
    → Shows (end_screen st) (follow p)
unfolding end_screen follow
end_screen-Shows st p r c h =
    let k = h.cursor in
    elim (Bool-cases (st.row == 25)) [
      | inl e ↦
          let far : leb (p.top + 25) (p.cursor / 80) ≡ true = ground (arith, k, e) in
          rw (e, far)
            (record {
              held = scroll-Held st p (ground (arith, e)) c h;
              row = omega arith;
              column = omega arith;
            })
      | inr e ↦
          let near : leb (p.top + 25) (p.cursor / 80) ≡ false = ground (arith, k, e) in
          rw (e, near) (record { held = h; row = ground (arith, e); column = c })
    ]

-- After the tests at the end of `console_putchar` the screen shows the paper, which has followed.
settle-Shows :
    (st : Console) (p : Paper)
    → (st.row < 25) ⊎ (st.column < 80)
    → st.row ≤ 25
    → st.column ≤ 80
    → Held st p
    → Shows (settle st) (follow p)
settle-Shows st p b r c h =
    let (held, row, column) = end_row-Held st p b r c h in
    end_screen-Shows (end_row st) p row column held

follow-near : (st : Console) (p : Paper) → st.row < 25 → st.column < 80 → Held st p → follow p ≡ p
unfolding follow
follow-near st p r c h =
    let k = h.cursor in
    let near : leb (p.top + 25) (p.cursor / 80) ≡ false = ground (arith, k) in rw near refl

-- A cursor that stays on the screen.
pub stay-Shows :
    (st : Console) (p : Paper) → st.row < 25 → st.column < 80 → Held st p → Shows (settle st) p
stay-Shows st p r c h =
    rw (sym (follow-near st p r c h)) (settle-Shows st p (inl r) (omega arith) (omega arith) h)

put-cell :
    (b q : ℕ → ℕ) (row column top v i cursor : ℕ)
    → row < 25
    → column < 80
    → cursor ≡ (top + row) * 80 + column
    → b i ≡ q (top * 80 + i)
    → store b ((row * 80 + column) % 2 ^ 16) v i ≡ store q cursor v (top * 80 + i)
unfolding store
put-cell b q row column top v i cursor r c k e = ground (arith, k, e)

put-fresh :
    (q : ℕ → ℕ) (row column top v j cursor : ℕ)
    → row < 25
    → column < 80
    → cursor ≡ (top + row) * 80 + column
    → (top + 25) * 80 ≤ j
    → store q cursor v j ≡ q j
unfolding store
put-fresh q row column top v j cursor r c k l = ground (arith, k)

pub visible-Held :
    (st : Console) (p : Paper) (c : ℕ)
    → Shows st p
    → Held (put_visible c st) (write_on c p)
      × ((put_visible c st).row < 25)
      × ((put_visible c st).column ≤ 80)
unfolding put_visible console_putentryat write_on
visible-Held st p c s =
    let k = s.held.cursor in
    let r = s.row in
    let l = s.column in
    (
      record {
        cursor = omega (arith, k, r, l);
        color = s.held.color;
        cells = λ i b. rw (s.held.color) (
            put-cell st.buffer p.cells st.row st.column p.top (vga_entry c p.color) i p.cursor r l k
              (s.held.cells i b));
        fresh = λ j b.
            put-fresh p.cells st.row st.column p.top (vga_entry c p.color) j p.cursor r l k b
            ∙ s.held.fresh j b;
      },
      r,
      omega arith,
    )

pub back-Shows :
    (st : Console) (p : Paper)
    → Shows st p
    → p.cursor % 80 ≢ 0
    → Shows (back st) (record p { cursor = p.cursor - 1 })
back-Shows st p s n =
    let k = s.held.cursor in
    let c = s.column in
    record {
      held = record {
        cursor = ground (arith, k, n);
        color = s.held.color;
        cells = s.held.cells;
        fresh = s.held.fresh;
      };
      row = s.row;
      column = ground (arith, k, n);
    }

-- Each kind of byte.
pub return-Shows :
    (st : Console) (p : Paper)
    → Shows st p
    → Shows (settle (record st { column = 0 })) (record p { cursor = p.cursor / 80 * 80 })
return-Shows st p s =
    let k = s.held.cursor in
    let c = s.column in
    stay-Shows (record st { column = 0 }) (record p { cursor = p.cursor / 80 * 80 }) s.row
      (omega arith)
      (record {
        cursor = omega (arith, k);
        color = s.held.color;
        cells = s.held.cells;
        fresh = s.held.fresh;
      })

pub newline-Shows :
    (st : Console) (p : Paper)
    → Shows st p
    → Shows (settle (next_row st)) (follow (record p { cursor = p.cursor + 80 }))
newline-Shows st p s =
    let k = s.held.cursor in
    let c = s.column in
    let r = s.row in
    settle-Shows (next_row st) (record p { cursor = p.cursor + 80 }) (inr c) (omega arith)
      (omega arith)
      (record {
        cursor = omega (arith, k);
        color = s.held.color;
        cells = s.held.cells;
        fresh = s.held.fresh;
      })

pub visible-Shows :
    (st : Console) (p : Paper) (c : ℕ)
    → Shows st p
    → Shows (settle (put_visible c st)) (follow (write_on c p))
visible-Shows st p c s =
    let (held, row, column) = visible-Held st p c s in
    settle-Shows (put_visible c st) (write_on c p) (inl row) (omega arith) column held
