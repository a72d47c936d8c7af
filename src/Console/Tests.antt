-- ===== src/Console/Tests.antt =====
-- Runs of the console, and the theorems about it on a text.
use mjos.Base.{ℕ, ◌+◌, ◌≤◌, ◌<◌, ◌≢◌, ◌≡◌, refl, arith, ◌==◌, if◌then◌else◌, some}
use mjos.CString.{Mem}
use mjos.Console.{
  Console, plain_color, blank, console_initialize, console_putentryat, put_visible, end_row,
  end_screen, put_plain, console_putchar, console_write, console_writez, scroll,
}
use mjos.Console.Paper.{Paper, Shows, follow, write_on, print, print_all, InRows}
use mjos.Console.Text.{bytes, console_writez-Shows, console_initialize-Shows}

abbrev dirty : Console
dirty = record { row = 7; column = 9; color = 0; buffer = λ a. a }

abbrev started : Console
started = console_initialize dirty

abbrev at_end : Console
at_end = record { row = 24; column = 5; color = 12; buffer = λ a. a }

abbrev empty : Paper
empty = record { cells = λ a. blank; cursor = 0; top = 0; color = plain_color }

-- "ab\b!\n" at 100
abbrev text : Mem
text a =
    if a == 100
    then 97
    else if a == 101
    then 98
    else if a == 102
    then 8
    else if a == 103
    then 33
    else if a == 104
    then 10
    else 0

-- '\n' keeps the column, but in the last row, where it goes to the first one and the colour is reset.
newline_inside :
    ((console_putchar 10 (record at_end { row = 3 })).row ≡ 4)
    × ((console_putchar 10 (record at_end { row = 3 })).column ≡ 5)
unfolding console_putchar put_plain end_row end_screen
newline_inside = (refl, refl)

newline_last :
    ((console_putchar 10 at_end).row ≡ 24)
    × ((console_putchar 10 at_end).column ≡ 0)
    × ((console_putchar 10 at_end).color ≡ 7)
unfolding console_putchar put_plain end_row end_screen scroll
newline_last = (refl, refl, refl)

written : (console_write text 100 5 started).row ≡ 1
unfolding console_write console_putchar put_plain put_visible console_putentryat end_row end_screen
    console_initialize
written = refl

in_rows : InRows (bytes text 100 5) empty
unfolding InRows print follow write_on
in_rows = (
  λ e. omega (arith, e),
  (λ e. omega (arith, e), (λ e. omega arith, (λ e. omega (arith, e), (λ e. omega (arith, e), tt)))),
)

nonzero : (i : ℕ) → i < 5 → text (100 + i) ≢ 0
nonzero i h = ground arith

console_writez-Shows_example :
    (st' : Console) × (console_writez 6 text 100 started ≡ some st')
    × Shows st' (print_all (bytes text 100 5) empty)
    × ((a : ℕ) → 2000 ≤ a → st'.buffer a ≡ started.buffer a)
console_writez-Shows_example =
    console_writez-Shows 6 text 100 5 started empty nonzero refl (omega arith)
      (console_initialize-Shows dirty) in_rows

started_row : started.row ≡ 0
unfolding console_initialize
started_row = refl

started_column : started.column ≡ 0
unfolding console_initialize
started_column = refl
