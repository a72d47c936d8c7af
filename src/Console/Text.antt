-- ===== src/Console/Text.antt =====
-- Texts on the console: `console_write`, `console_writez` and `console_initialize`, and a '\b' that leaves
-- the screen.
use mjos.Base.{
  ℕ, zero, suc, ap, sym, ◌∙◌, ◌+◌, ◌≤◌, ◌<◌, ◌≡◌, ◌≢◌, refl, ◌==◌, true, false, some, List, [], ◌∷◌,
  arith,
}
use mjos.CString.{Mem, store}
use mjos.Console.{
  Console, plain_color, blank, vga_entry, console_initialize, console_putentryat, put_visible,
  end_row, end_screen, put_plain, console_putchar, console_write, console_writez,
}
use mjos.Console.Scroll.{fill_blank-inside}
use mjos.Console.Paper.{Paper, Shows, print, print_all, InRows}
use mjos.Console.Bytes.{print-Shows, print-beyond}

-- The bytes of a text in memory.
abbrev pub bytes : Mem → ℕ → ℕ → List ℕ
bytes m text zero = []
bytes m text (suc n) = m text ∷ bytes m (text + 1) n

print_all-Shows :
    (m : Mem) (text n : ℕ) (st : Console) (p : Paper)
    → Shows st p
    → InRows (bytes m text n) p
    → Shows (console_write m text n st) (print_all (bytes m text n) p)
unfolding console_write InRows print_all
print_all-Shows m text zero st p s r = s
print_all-Shows m text (suc n) st p s (first, rest) =
    print_all-Shows m (text + 1) n (console_putchar (m text) st) (print (m text) p)
      (print-Shows st p (m text) s first) rest

-- `console_writez` writes the bytes before the terminating zero, given more fuel than there are bytes.
writez-write :
    (fuel : ℕ) (m : Mem) (text n : ℕ) (st : Console)
    → ((i : ℕ) → i < n → m (text + i) ≢ 0)
    → m (text + n) ≡ 0
    → n < fuel
    → console_writez fuel m text st ≡ some (console_write m text n st)
unfolding console_writez console_write
writez-write zero m text n st ne end f = absurd (omega arith)
writez-write (suc fuel) m text zero st ne end f =
    let here : text + 0 ≡ text = omega arith in
    let stop : (m text == 0) ≡ true = rw (ap m (sym here), end) refl in rw stop refl
writez-write (suc fuel) m text (suc n) st ne end f =
    let here : text + 0 ≡ text = omega arith in
    let last : text + 1 + n ≡ text + suc n = omega arith in
    let first : m text ≢ 0 = λ e. ne 0 (omega arith) (ap m here ∙ e) in
    let go : (m text == 0) ≡ false = ground (arith, first) in
    rw go (
      writez-write fuel m (text + 1) n (console_putchar (m text) st)
        (λ i l e.
          let at : text + suc i ≡ text + 1 + i = omega arith in
          ne (suc i) (omega arith) (ap m at ∙ e))
        (ap m last ∙ end) (omega arith))

print_all-beyond :
    (m : Mem) (text n : ℕ) (st : Console) (p : Paper) (a : ℕ)
    → Shows st p
    → InRows (bytes m text n) p
    → 2000 ≤ a
    → (console_write m text n st).buffer a ≡ st.buffer a
unfolding console_write InRows
print_all-beyond m text zero st p a s r h = refl
print_all-beyond m text (suc n) st p a s (first, rest) h =
    print_all-beyond m (text + 1) n (console_putchar (m text) st) (print (m text) p) a
      (print-Shows st p (m text) s first) rest h
    ∙ print-beyond st p (m text) a s first h

-- For a text with a terminating zero in which no '\b' comes at the start of a row, `console_writez` returns;
-- a screen that showed the paper then shows the paper with the text printed on it, scrolled as far as the
-- text needs, and no cell behind the 2000 of the screen changes.
pub console_writez-Shows :
    (fuel : ℕ) (m : Mem) (text n : ℕ) (st : Console) (p : Paper)
    → ((i : ℕ) → i < n → m (text + i) ≢ 0)
    → m (text + n) ≡ 0
    → n < fuel
    → Shows st p
    → InRows (bytes m text n) p
    → (st' : Console) × (console_writez fuel m text st ≡ some st')
      × Shows st' (print_all (bytes m text n) p)
      × ((a : ℕ) → 2000 ≤ a → st'.buffer a ≡ st.buffer a)
console_writez-Shows fuel m text n st p ne end f s r = (
  console_write m text n st,
  writez-write fuel m text n st ne end f,
  print_all-Shows m text n st p s r,
  λ a h. print_all-beyond m text n st p a s r h,
)

-- `console_initialize` shows empty paper, whatever the memory held.
pub console_initialize-Shows :
    (st : Console)
    → Shows
        (console_initialize st)
        (record { cells = λ a. blank; cursor = 0; top = 0; color = plain_color })
unfolding console_initialize
console_initialize-Shows st = record {
  held = record {
    cursor = refl;
    color = refl;
    cells = λ i h. fill_blank-inside 2000 0 st.buffer i (omega arith) h;
    fresh = λ j h. refl;
  };
  row = omega arith;
  column = omega arith;
}

-- '\b' in the upper left corner wraps the column around: it writes a blank to the cell 65535, 63535 cells
-- behind the end of the screen, and leaves the cursor in column 65535.
pub backspace-outside :
    (st : Console)
    → st.row ≡ 0
    → st.column ≡ 0
    → ((console_putchar 8 st).buffer 65535 ≡ vga_entry 32 st.color)
      × ((console_putchar 8 st).column ≡ 65535)
unfolding console_putchar put_plain put_visible console_putentryat end_row end_screen store
backspace-outside st r c = rw (r, c) (refl, refl)
