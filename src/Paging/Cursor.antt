-- ===== src/Paging/Cursor.antt =====
-- The cursors of `find_virtual_addr`: the address they stand for, and carrying.
use mjos.Base.{ℕ, zero, suc, ◌+◌, ◌*◌, ◌/◌, ◌%◌, ◌^◌, ◌≤◌, ◌<◌, ◌≡◌, ◌≢◌, inl, inr, arith, eq-cases}
use mjos.Paging.{write, pml_offset}
use mjos.Paging.Search.{mk_virtual, mk_frame, carry}

-- what the cursors amount to, in pages
unfoldable pub value : (ℕ → ℕ) → ℕ
value c = c 4 * 512 ^ 3 + c 3 * 512 ^ 2 + c 2 * 512 + c 1

-- the cursors of the four levels but `l` stay below their ends
abbrev pub InRangeBut : ℕ → (ℕ → ℕ) → Type 0
InRangeBut l c = (k : ℕ) → 1 ≤ k → k ≤ 4 → k ≢ l → c k < 512

-- no level is numbered 0
abbrev pub InRange : (ℕ → ℕ) → Type 0
InRange c = InRangeBut 0 c

pub mk_virtual-value : (c : ℕ → ℕ) → mk_virtual c ≡ value c * 4096
unfolding mk_virtual value
mk_virtual-value c = omega arith

four : (c : ℕ → ℕ) → InRange c → (c 1 < 512) × (c 2 < 512) × (c 3 < 512) × (c 4 < 512)
four c r = (
  r 1 (omega arith) (omega arith) (omega arith),
  r 2 (omega arith) (omega arith) (omega arith),
  r 3 (omega arith) (omega arith) (omega arith),
  r 4 (omega arith) (omega arith) (omega arith),
)

pub value-bound : (c : ℕ → ℕ) → InRange c → value c < 2 ^ 36
unfolding value
value-bound c r = let (h1, h2, h3, h4) = four c r in omega arith

pub pml_offset-cursor :
    (k : ℕ) (c : ℕ → ℕ) → 1 ≤ k → k ≤ 4 → InRange c → pml_offset (mk_virtual c) k ≡ c k
unfolding pml_offset mk_virtual
pml_offset-cursor zero c lo hi r = absurd (omega arith)
pml_offset-cursor (suc zero) c lo hi r = let (h1, h2, h3, h4) = four c r in omega arith
pml_offset-cursor (suc (suc zero)) c lo hi r = let (h1, h2, h3, h4) = four c r in omega arith
pml_offset-cursor (suc (suc (suc zero))) c lo hi r = let (h1, h2, h3, h4) = four c r in omega arith
pml_offset-cursor (suc (suc (suc (suc zero)))) c lo hi r =
    let (h1, h2, h3, h4) = four c r in omega arith
pml_offset-cursor (suc (suc (suc (suc (suc k))))) c lo hi r = absurd (omega arith)

pub mk_frame-InRange : (vir : ℕ) → InRange (mk_frame vir)
unfolding mk_frame pml_offset
mk_frame-InRange vir k lo hi ne = omega arith

pub mk_frame-value : (vir : ℕ) → value (mk_frame vir) ≡ vir % 2 ^ 48 / 4096
unfolding value mk_frame pml_offset
mk_frame-value vir = omega arith

pub carry-value : (l : ℕ) (c : ℕ → ℕ) → 1 ≤ l → l ≤ 3 → c l ≡ 512 → value (carry l c) ≡ value c
unfolding value carry write
carry-value zero c lo hi e = absurd (omega arith)
carry-value (suc zero) c lo hi e = omega arith
carry-value (suc (suc zero)) c lo hi e = omega arith
carry-value (suc (suc (suc zero))) c lo hi e = omega arith
carry-value (suc (suc (suc (suc l)))) c lo hi e = absurd (omega arith)

pub carry-other : (l k : ℕ) (c : ℕ → ℕ) → k ≢ l → k ≢ suc l → carry l c k ≡ c k
unfolding carry write
carry-other l k c h h' = ground arith

pub carry-next : (l : ℕ) (c : ℕ → ℕ) → carry l c (suc l) ≡ c (suc l) + 1
unfolding carry write
carry-next l c = ground arith

pub carry-InRangeBut : (l : ℕ) (c : ℕ → ℕ) → InRangeBut l c → InRangeBut (suc l) (carry l c)
unfolding carry write
carry-InRangeBut l c r k lo hi ne = elim (eq-cases k l) [
  | inl e ↦ ground arith
  | inr e ↦ let h = r k lo hi e in ground arith
]

-- the cursors when the lowest moves on
pub advance-value : (c : ℕ → ℕ) → value (write c 1 (c 1 + 1)) ≡ value c + 1
unfolding value write
advance-value c = omega arith
