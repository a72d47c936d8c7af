-- ===== src/Pids/Bits.antt =====
-- One bit of a byte that is set or cleared, and the others; then of a bitmap.
use Prim.Native.Nat.{bit_or}
use native.Mathlib.Nat.{div-div-eq-div-mul, pow-succ'}
use mjos.Base.{
  ℕ, zero, suc, ◌-◌, ◌*◌, ◌/◌, ◌%◌, ◌^◌, ◌≤◌, ◌≡◌, ◌≢◌, inl, inr, refl, ap, sym, ◌∙◌, ◌==◌,
  if◌then◌else◌, Bool-cases, eq-cases, true, false, arith,
}
use mjos.Base.Bits.{bit_or-half, bit_or-odd, bit_or-zero}
use mjos.CString.{Mem, store}
use mjos.CString.Copy.{store_self, store-ne}
use mjos.Pids.{chk_bit, set_bit, clr_bit, chk_bitmap, set_bitmap, clr_bitmap}

half : (a j : ℕ) → a / 2 ^ suc j ≡ a / 2 / 2 ^ j
half a j = ap (λ k. a / k) (pow-succ' 2 j) ∙ sym (div-div-eq-div-mul a 2 (2 ^ j))

double : (k : ℕ) → 2 ^ suc k ≡ 2 * 2 ^ k
double k = pow-succ' 2 k

set_other : (k j a : ℕ) → k ≢ j → bit_or a (2 ^ k) / 2 ^ j % 2 ≡ a / 2 ^ j % 2
set_other zero zero a n = absurd (n refl)
set_other zero (suc j) a n =
    rw (half (bit_or a 1) j, half a j, bit_or-half a 1, bit_or-zero (a / 2)) refl
set_other (suc k) zero a n = omega (arith, bit_or-odd a (2 ^ suc k), double k)
set_other (suc k) (suc j) a n =
    let less : 2 ^ suc k / 2 ≡ 2 ^ k = omega (arith, double k) in
    rw (half (bit_or a (2 ^ suc k)) j, half a j, bit_or-half a (2 ^ suc k), less)
      (set_other k j (a / 2) (λ e. n (ap suc e)))

set_self : (k a : ℕ) → bit_or a (2 ^ k) / 2 ^ k % 2 ≡ 1
set_self zero a = omega (arith, bit_or-odd a 1)
set_self (suc k) a =
    let less : 2 ^ suc k / 2 ≡ 2 ^ k = omega (arith, double k) in
    rw (half (bit_or a (2 ^ suc k)) k, bit_or-half a (2 ^ suc k), less) (set_self k (a / 2))

set_at-least : (k a : ℕ) → a / 2 ^ k % 2 ≡ 1 → 2 ^ k ≤ a
set_at-least zero a e = omega (arith, e)
set_at-least (suc k) a e = omega (arith, set_at-least k (a / 2) (rw (half a k) at e), double k)

clear_half : (k a : ℕ) → a / 2 ^ suc k % 2 ≡ 1 → (a - 2 ^ suc k) / 2 ≡ a / 2 - 2 ^ k
clear_half k a e = omega (arith, double k)

clear_other : (k j a : ℕ) → k ≢ j → a / 2 ^ k % 2 ≡ 1 → (a - 2 ^ k) / 2 ^ j % 2 ≡ a / 2 ^ j % 2
clear_other zero zero a n e = absurd (n refl)
clear_other zero (suc j) a n e =
    let same : (a - 1) / 2 ≡ a / 2 = omega (arith, e) in rw (half (a - 1) j, half a j, same) refl
clear_other (suc k) zero a n e = omega (arith, double k, set_at-least (suc k) a e)
clear_other (suc k) (suc j) a n e =
    rw (half (a - 2 ^ suc k) j, half a j, clear_half k a e)
      (clear_other k j (a / 2) (λ m. n (ap suc m)) (rw (half a k) at e))

clear_self : (k a : ℕ) → a / 2 ^ k % 2 ≡ 1 → (a - 2 ^ k) / 2 ^ k % 2 ≡ 0
clear_self zero a e = omega (arith, e)
clear_self (suc k) a e =
    rw (half (a - 2 ^ suc k) k, clear_half k a e) (clear_self k (a / 2) (rw (half a k) at e))

bit_one : (d k : ℕ) → d / 2 ^ k % 2 ≡ 1 → chk_bit d k ≡ true
bit_one d k e = rw e refl

bit_zero : (d k : ℕ) → d / 2 ^ k % 2 ≡ 0 → chk_bit d k ≡ false
bit_zero d k e = rw e refl

clr_bit_other : (d k j : ℕ) → k ≢ j → chk_bit (clr_bit d k) j ≡ chk_bit d j
clr_bit_other d k j n = elim (Bool-cases (chk_bit d k)) [
  | inl e ↦ rw e (ap (λ x. x == 1) (clear_other k j d n (ground (arith, e))))
  | inr e ↦ rw e refl
]

clr_bit_self : (d k : ℕ) → chk_bit (clr_bit d k) k ≡ false
clr_bit_self d k = elim (Bool-cases (chk_bit d k)) [
  | inl e ↦ rw e (bit_zero (d - 2 ^ k) k (clear_self k d (ground (arith, e))))
  | inr e ↦ rw e e
]

-- A byte of the bitmap changes at one place.
byte_other :
    (bitmap : Mem) (n m v : ℕ)
    → m ≢ n
    → (m % 8 ≢ n % 8 → chk_bit v (m % 8) ≡ chk_bit (bitmap (n / 8)) (m % 8))
    → chk_bitmap (store bitmap (n / 8) v) m ≡ chk_bitmap bitmap m
unfolding chk_bitmap
byte_other bitmap n m v ne same = elim (eq-cases (m / 8) (n / 8)) [
  | inl e ↦ rw (e, store_self bitmap (n / 8) v) (same (omega arith))
  | inr e ↦ rw (store-ne bitmap (n / 8) v (m / 8) e) refl
]

byte_self : (bitmap : Mem) (n v : ℕ) → chk_bitmap (store bitmap (n / 8) v) n ≡ chk_bit v (n % 8)
unfolding chk_bitmap
byte_self bitmap n v = rw (store_self bitmap (n / 8) v) refl

-- Setting a bit of the bitmap sets that one, and clearing it clears that one.
pub set_bitmap-chk :
    (bitmap : Mem) (n m : ℕ)
    → chk_bitmap (set_bitmap bitmap n) m ≡ (if m == n then true else chk_bitmap bitmap m)
unfolding set_bitmap
set_bitmap-chk bitmap n m =
    let byte = bitmap (n / 8) in
    elim (eq-cases m n) [
      | inl e ↦
          let at : (m == n) ≡ true = ground (arith, e) in
          rw (at, e)
            (byte_self bitmap n (set_bit byte (n % 8))
              ∙ bit_one (set_bit byte (n % 8)) (n % 8) (set_self (n % 8) byte))
      | inr ne ↦
          let away : (m == n) ≡ false = ground (arith, ne) in
          rw away (
            byte_other bitmap n m (set_bit byte (n % 8)) ne
              (λ k. ap (λ x. x == 1) (set_other (n % 8) (m % 8) byte (λ e. k (sym e)))))
    ]

pub clr_bitmap-chk :
    (bitmap : Mem) (n m : ℕ)
    → chk_bitmap (clr_bitmap bitmap n) m ≡ (if m == n then false else chk_bitmap bitmap m)
unfolding clr_bitmap
clr_bitmap-chk bitmap n m =
    let byte = bitmap (n / 8) in
    elim (eq-cases m n) [
      | inl e ↦
          let at : (m == n) ≡ true = ground (arith, e) in
          rw (at, e) (byte_self bitmap n (clr_bit byte (n % 8)) ∙ clr_bit_self byte (n % 8))
      | inr ne ↦
          let away : (m == n) ≡ false = ground (arith, ne) in
          rw away (
            byte_other bitmap n m (clr_bit byte (n % 8)) ne
              (λ k. clr_bit_other byte (n % 8) (m % 8) (λ e. k (sym e))))
    ]
