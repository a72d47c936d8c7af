-- ===== src/Console/Scroll.antt =====
-- What `scroll` and the initial loops do to each cell.
use mjos.Base.{
  ℕ, zero, suc, ap, ◌-◌, ◌+◌, ◌*◌, ◌≤◌, ◌<◌, ◌≡◌, refl, ◌∙◌, inl, inr, eq-cases, arith, ◌⊎◌,
}
use mjos.CString.{memcpy, store}
use mjos.CString.Copy.{memcpy-frame, memcpy-copies}
use mjos.Console.{Console, blank, fill_blank, scroll_rows, scroll}

fill_blank-outside :
    (n i : ℕ) (buffer : ℕ → ℕ) (a : ℕ) → (a < i) ⊎ (i + n ≤ a) → fill_blank n i buffer a ≡ buffer a
unfolding fill_blank store
fill_blank-outside zero i buffer a h = refl
fill_blank-outside (suc n) i buffer a h =
    fill_blank-outside n (i + 1) (store buffer i blank) a (ground (arith, h)) ∙ ground (arith, h)

pub fill_blank-inside :
    (n i : ℕ) (buffer : ℕ → ℕ) (a : ℕ) → i ≤ a → a < i + n → fill_blank n i buffer a ≡ blank
unfolding fill_blank store
fill_blank-inside zero i buffer a h k = absurd (omega arith)
fill_blank-inside (suc n) i buffer a h k = elim (eq-cases a i) [
  | inl e ↦ fill_blank-outside n (i + 1) (store buffer i blank) a (inl (omega arith)) ∙ ground arith
  | inr e ↦ fill_blank-inside n (i + 1) (store buffer i blank) a (omega arith) (omega arith)
]

-- Rows move up by one: each cell of the rows from `y` on gets the cell below it.
scroll_rows-outside :
    (n y : ℕ) (buffer : ℕ → ℕ) (a : ℕ)
    → (a < y * 80) ⊎ ((y + n) * 80 ≤ a)
    → scroll_rows n y buffer a ≡ buffer a
unfolding scroll_rows
scroll_rows-outside zero y buffer a h = refl
scroll_rows-outside (suc n) y buffer a h =
    scroll_rows-outside n (y + 1) (memcpy buffer (y * 80) ((y + 1) * 80) 80) a (omega arith)
    ∙ memcpy-frame buffer (y * 80) ((y + 1) * 80) 80 a (omega arith)

scroll_rows-inside :
    (n y : ℕ) (buffer : ℕ → ℕ) (a : ℕ)
    → y * 80 ≤ a
    → a < (y + n) * 80
    → scroll_rows n y buffer a ≡ buffer (a + 80)
unfolding scroll_rows
scroll_rows-inside zero y buffer a h k = absurd (omega arith)
scroll_rows-inside (suc n) y buffer a h k =
    let copied = memcpy buffer (y * 80) ((y + 1) * 80) 80 in
    let split : (a < y * 80 + 80) ⊎ (y * 80 + 80 ≤ a) = omega arith in
    elim split [
      | inl first ↦
          let at : a ≡ y * 80 + (a - y * 80) = omega arith in
          let below : (y + 1) * 80 + (a - y * 80) ≡ a + 80 = omega arith in
          scroll_rows-outside n (y + 1) copied a (inl (omega arith))
          ∙ ap copied at
          ∙ memcpy-copies buffer (y * 80) ((y + 1) * 80) 80 (a - y * 80) (inl (omega arith))
              (omega arith)
          ∙ ap buffer below
      | inr rest ↦
          scroll_rows-inside n (y + 1) copied a (omega arith) (omega arith)
          ∙ memcpy-frame buffer (y * 80) ((y + 1) * 80) 80 (a + 80) (inr (omega arith))
    ]

-- `scroll` as a whole: each row but the last gets the row below it, the last one is blank, and no other
-- cell changes.
pub scroll-up : (st : Console) (a : ℕ) → a < 1920 → (scroll st).buffer a ≡ st.buffer (a + 80)
unfolding scroll
scroll-up st a h =
    fill_blank-outside 80 1920 (scroll_rows 24 0 st.buffer) a (inl h)
    ∙ scroll_rows-inside 24 0 st.buffer a (omega arith) (omega arith)

pub scroll-last : (st : Console) (a : ℕ) → 1920 ≤ a → a < 2000 → (scroll st).buffer a ≡ blank
unfolding scroll
scroll-last st a h k = fill_blank-inside 80 1920 (scroll_rows 24 0 st.buffer) a h k

pub scroll-beyond : (st : Console) (a : ℕ) → 2000 ≤ a → (scroll st).buffer a ≡ st.buffer a
unfolding scroll
scroll-beyond st a h =
    fill_blank-outside 80 1920 (scroll_rows 24 0 st.buffer) a (inr h)
    ∙ scroll_rows-outside 24 0 st.buffer a (inr (omega arith))
