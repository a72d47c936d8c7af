-- ===== src/Console.antt =====
-- kernel/arch/x86_64/dev/console.c and kernel/arch/x86_64/include/console.h: the text screen of 25 rows of
-- 80 cells. The buffer is a function from indices to cells, each of 16 bits; rows and columns wrap around
-- in 16 bits. The log line of `console_initialize` is left out.
pub mod Scroll
pub mod Paper
pub mod Refines
pub mod Bytes
pub mod Text
mod Tests
use mjos.Base.{
  ℕ, zero, suc, ◌+◌, ◌-◌, ◌*◌, ◌%◌, ◌^◌, ◌==◌, ltb, ◌||◌, if◌then◌else◌, Option, none, some,
}
use mjos.CString.{Mem, store, memcpy}

-- The static variables.
pub record Console : Type 0 where
  pub row : ℕ
  pub column : ℕ
  pub color : ℕ
  pub buffer : ℕ → ℕ

-- `vga_entry_color`; the colours are below 16.
abbrev pub vga_entry_color : ℕ → ℕ → ℕ
vga_entry_color fg bg = fg + bg * 16

-- `vga_entry`, of two bytes
abbrev pub vga_entry : ℕ → ℕ → ℕ
vga_entry uc color = uc + color * 256

-- light grey on black
abbrev pub plain_color : ℕ
plain_color = vga_entry_color 7 0

abbrev pub blank : ℕ
blank = vga_entry 32 plain_color

-- `n` cells from `i` on are made blank: the loops of `console_initialize` and `scroll`.
unfoldable pub fill_blank : ℕ → ℕ → (ℕ → ℕ) → ℕ → ℕ
fill_blank zero i buffer = buffer
fill_blank (suc n) i buffer = fill_blank n (i + 1) (store buffer i blank)

-- `console_initialize`: the two loops go through the cells in order.
unfoldable pub console_initialize : Console → Console
console_initialize st = record {
  row = 0;
  column = 0;
  color = plain_color;
  buffer = fill_blank 2000 0 st.buffer;
}

-- `console_setcolor`
abbrev pub console_setcolor : ℕ → Console → Console
console_setcolor color st = record st { color = color }

-- `console_getcolor`
abbrev pub console_getcolor : Console → ℕ
console_getcolor st = st.color

-- `console_putentryat`
unfoldable pub console_putentryat : ℕ → ℕ → ℕ → ℕ → Console → Console
console_putentryat c color x y st = record st {
  buffer = store st.buffer ((y * 80 + x) % 2 ^ 16) (vga_entry c color);
}

-- The loop of `scroll` over the rows from `y` on; `memcpy` copies the 80 cells of a row.
unfoldable pub scroll_rows : ℕ → ℕ → (ℕ → ℕ) → ℕ → ℕ
scroll_rows zero y buffer = buffer
scroll_rows (suc n) y buffer = scroll_rows n (y + 1) (memcpy buffer (y * 80) ((y + 1) * 80) 80)

-- `scroll`
unfoldable pub scroll : Console → Console
scroll st = record st {
  color = plain_color;
  buffer = fill_blank 80 1920 (scroll_rows 24 0 st.buffer);
}

-- `console_row += 1` and `console_row++`
abbrev pub next_row : Console → Console
next_row st = record st { row = (st.row + 1) % 2 ^ 16 }

-- `console_column -= 1`
abbrev pub back : Console → Console
back st = record st { column = (st.column + (2 ^ 16 - 1)) % 2 ^ 16 }

-- A character that is shown: put at the cursor, which moves on.
unfoldable pub put_visible : ℕ → Console → Console
put_visible c st =
    let put = console_putentryat c st.color st.column st.row st in
    record put { column = (put.column + 1) % 2 ^ 16 }

-- The two tests at the end of `console_putchar`.
unfoldable pub end_row : Console → Console
end_row st = if st.column == 80 then record (next_row st) { column = 0 } else st

unfoldable pub end_screen : Console → Console
end_screen st = if st.row == 25 then record (scroll st) { column = 0; row = 24 } else st

abbrev pub settle : Console → Console
settle st = end_screen (end_row st)

-- `console_putchar` for a byte that is not '\b'. A byte from 128 on is a negative `char`.
unfoldable pub put_plain : ℕ → Console → Console
put_plain c st =
    if c == 13
    then settle (record st { column = 0 })
    else if c == 10
    then settle (next_row st)
    else if ltb c 32 || ltb 126 c
    then settle st
    else settle (put_visible c st)

-- `console_putchar`, whose call of itself is for a blank.
unfoldable pub console_putchar : ℕ → Console → Console
console_putchar c st = if c == 8 then settle (back (put_plain 32 (back st))) else put_plain c st

-- `console_write`; `size` has 16 bits.
unfoldable pub console_write : Mem → ℕ → ℕ → Console → Console
console_write m text zero st = st
console_write m text (suc size) st = console_write m (text + 1) size (console_putchar (m text) st)

-- `console_writez`, with fuel
unfoldable pub console_writez : ℕ → Mem → ℕ → Console → Option Console
console_writez zero m text st = none
console_writez (suc fuel) m text st =
    let rest = console_writez fuel m (text + 1) (console_putchar (m text) st) in
    if m text == 0 then some st else rest
