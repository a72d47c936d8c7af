-- ===== src/Console/Bytes.antt =====
-- What one byte does to the console: `console_putchar`.
use mjos.Base.{
  ℕ, ◌∙◌, ◌+◌, ◌-◌, ◌%◌, ◌^◌, ◌≤◌, ◌<◌, ◌≡◌, ◌≢◌, inl, inr, refl, ◌==◌, ltb, ◌||◌, Bool-cases,
  arith,
}
use mjos.CString.{store}
use mjos.Console.{
  Console, vga_entry, console_putentryat, next_row, back, put_visible, end_row, end_screen, settle,
  put_plain, console_putchar,
}
use mjos.Console.Scroll.{scroll-beyond}
use mjos.Console.Paper.{Paper, Shows, write_on, print}
use mjos.Console.Refines.{
  back-Shows, return-Shows, newline-Shows, visible-Shows, visible-Held, stay-Shows,
}

put_plain-visible : (st : Console) → put_plain 32 st ≡ settle (put_visible 32 st)
unfolding put_plain
put_plain-visible st = refl

visible-column : (c : ℕ) (st : Console) → (put_visible c st).column ≡ (st.column + 1) % 2 ^ 16
unfolding put_visible console_putentryat
visible-column c st = refl

-- '\b' behind the start of a row
backspace-Shows :
    (st : Console) (p : Paper)
    → Shows st p
    → p.cursor % 80 ≢ 0
    → Shows (settle (back (put_plain 32 (back st)))) (record p {
      cells = store p.cells (p.cursor - 1) (vga_entry 32 p.color);
      cursor = p.cursor - 1;
    })
unfolding write_on
backspace-Shows st p s n =
    let before = record p { cursor = p.cursor - 1 } in
    let b = back-Shows st p s n in
    let (held, row, column) = visible-Held (back st) before 32 b in
    let k = s.held.cursor in
    let c = s.column in
    let col : (put_visible 32 (back st)).column < 80 =
      rw (visible-column 32 (back st)) (ground (arith, k, n)) in
    let after = stay-Shows (put_visible 32 (back st)) (write_on 32 before) row col held in
    let again =
      back-Shows (settle (put_visible 32 (back st))) (write_on 32 before) after
        (omega (arith, n)) in
    let same : p.cursor - 1 + 1 - 1 ≡ p.cursor - 1 = omega arith in
    let end =
      stay-Shows (back (settle (put_visible 32 (back st))))
        (record (write_on 32 before) { cursor = p.cursor - 1 + 1 - 1 }) again.row again.column
        again.held in
    rw (put_plain-visible (back st)) (rw same at end)

pub print-Shows :
    (st : Console) (p : Paper) (c : ℕ)
    → Shows st p
    → (c ≡ 8 → p.cursor % 80 ≢ 0)
    → Shows (console_putchar c st) (print c p)
unfolding console_putchar put_plain print
print-Shows st p c s n = elim (Bool-cases (c == 8)) [
  | inl e ↦ rw e (backspace-Shows st p s (n (ground (arith, e))))
  | inr e ↦ rw e (elim (Bool-cases (c == 13)) [
    | inl r ↦ rw r (return-Shows st p s)
    | inr r ↦ rw r (elim (Bool-cases (c == 10)) [
      | inl l ↦ rw l (newline-Shows st p s)
      | inr l ↦ rw l (elim (Bool-cases (ltb c 32 || ltb 126 c)) [
        | inl h ↦ rw h (stay-Shows st p s.row s.column s.held)
        | inr v ↦ rw v (visible-Shows st p c s)
      ])
    ])
  ])
]

-- No byte changes a cell behind the screen.
settle-beyond : (st : Console) (a : ℕ) → 2000 ≤ a → (settle st).buffer a ≡ st.buffer a
unfolding end_row end_screen
settle-beyond st a h = elim (Bool-cases (st.column == 80)) [
  | inl e ↦ rw e (elim (Bool-cases ((st.row + 1) % 2 ^ 16 == 25)) [
    | inl r ↦ rw r (scroll-beyond (record (next_row st) { column = 0 }) a h)
    | inr r ↦ rw r refl
  ])
  | inr e ↦
      rw e (elim (Bool-cases (st.row == 25)) [
        | inl r ↦ rw r (scroll-beyond st a h)
        | inr r ↦ rw r refl
      ])
]

put-beyond :
    (st : Console) (c a : ℕ)
    → st.row < 25
    → st.column < 80
    → 2000 ≤ a
    → (put_visible c st).buffer a ≡ st.buffer a
unfolding put_visible console_putentryat store
put-beyond st c a r l h = ground arith

visible-beyond :
    (st : Console) (c a : ℕ)
    → st.row < 25
    → st.column < 80
    → 2000 ≤ a
    → (settle (put_visible c st)).buffer a ≡ st.buffer a
visible-beyond st c a r l h = settle-beyond (put_visible c st) a h ∙ put-beyond st c a r l h

pub print-beyond :
    (st : Console) (p : Paper) (c a : ℕ)
    → Shows st p
    → (c ≡ 8 → p.cursor % 80 ≢ 0)
    → 2000 ≤ a
    → (console_putchar c st).buffer a ≡ st.buffer a
unfolding console_putchar put_plain
print-beyond st p c a s n h = elim (Bool-cases (c == 8)) [
  | inl e ↦
      let b = back-Shows st p s (n (ground (arith, e))) in
      rw e (
        settle-beyond (back (put_plain 32 (back st))) a h
        ∙ visible-beyond (back st) 32 a b.row b.column h)
  | inr e ↦ rw e (elim (Bool-cases (c == 13)) [
    | inl r ↦ rw r (settle-beyond (record st { column = 0 }) a h)
    | inr r ↦ rw r (elim (Bool-cases (c == 10)) [
      | inl l ↦ rw l (settle-beyond (next_row st) a h)
      | inr l ↦ rw l (elim (Bool-cases (ltb c 32 || ltb 126 c)) [
        | inl v ↦ rw v (settle-beyond st a h)
        | inr v ↦ rw v (visible-beyond st c a s.row s.column h)
      ])
    ])
  ])
]
