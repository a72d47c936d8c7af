-- ===== src/Console/Paper.antt =====
-- A console without end: text on paper of rows of 80 cells, of which 25 are shown. What the screen shows
-- of it, and what a character does to it.
use mjos.Base.{
  ℕ, ◌+◌, ◌-◌, ◌*◌, ◌/◌, ◌%◌, ◌≤◌, ◌<◌, ◌≡◌, ◌≢◌, ◌==◌, ltb, leb, ◌||◌, if◌then◌else◌, List, [],
  ◌∷◌,
}
use mjos.CString.{store}
use mjos.Console.{Console, plain_color, blank, vga_entry}

pub record Paper : Type 0 where
  pub cells : ℕ → ℕ
  pub cursor : ℕ
  pub top : ℕ
  pub color : ℕ

-- When the cursor leaves the last row that is shown, the next row is shown: the cursor goes to its start,
-- and the colour is plain again.
unfoldable pub follow : Paper → Paper
follow p =
    if leb (p.top + 25) (p.cursor / 80)
    then record p { cursor = p.cursor / 80 * 80; top = p.top + 1; color = plain_color }
    else p

-- A character is written at the cursor, which moves on.
unfoldable pub write_on : ℕ → Paper → Paper
unfolding store
write_on c p = record p {
  cells = store p.cells p.cursor (vga_entry c p.color);
  cursor = p.cursor + 1;
}

-- '\b' wipes out the character before the cursor and goes there, '\r' goes to the start of the row, '\n' to
-- the row below, and other control characters do nothing.
unfoldable pub print : ℕ → Paper → Paper
print c p =
    if c == 8
    then record p {
      cells = store p.cells (p.cursor - 1) (vga_entry 32 p.color);
      cursor = p.cursor - 1;
    }
    else if c == 13
    then record p { cursor = p.cursor / 80 * 80 }
    else if c == 10
    then follow (record p { cursor = p.cursor + 80 })
    else if ltb c 32 || ltb 126 c
    then p
    else follow (write_on c p)

unfoldable pub print_all : List ℕ → Paper → Paper
print_all [] p = p
print_all (c ∷ cs) p = print_all cs (print c p)

-- No '\b' comes at the start of a row.
unfoldable pub InRows : List ℕ → Paper → Type 0
InRows [] p = Unit {0}
InRows (c ∷ cs) p = (c ≡ 8 → p.cursor % 80 ≢ 0) × InRows cs (print c p)

-- What a screen has of the paper, wherever its cursor is.
pub record Held (st : Console) (p : Paper) : Type 0 where
  pub cursor : p.cursor ≡ (p.top + st.row) * 80 + st.column
  pub color : st.color ≡ p.color
  pub cells : (i : ℕ) → i < 2000 → st.buffer i ≡ p.cells (p.top * 80 + i)
  pub fresh : (j : ℕ) → (p.top + 25) * 80 ≤ j → p.cells j ≡ blank

-- The screen shows the paper, and its cursor is on it.
pub record Shows (st : Console) (p : Paper) : Type 0 where
  pub held : Held st p
  pub row : st.row < 25
  pub column : st.column < 80
