-- ===== src/Printf/Digits.antt =====
-- The digits of `fmt_number`: their value, how they are put into the buffer, and how the number scan of
-- the format reads them.
use mjos.Base.{
  ◌^◌, ℕ, zero, suc, ◌+◌, ◌-◌, ◌*◌, ◌/◌, ◌%◌, ◌<◌, ◌≤◌, ◌≡◌, refl, ap, ◌∙◌, ◌==◌, ltb,
  if◌then◌else◌, Bool, true, false, Bool-cases, inl, inr, some, List, [], ◌∷◌, ◌++◌, arith, length,
}
use mjos.CString.{Mem}
use mjos.CString.Copy.{store_self}
use mjos.Printf.{Out, put}
use mjos.Printf.Number.{digit_char, tmp_digits, reverse, put_digits}
use mjos.Printf.Spec.{isdigit, parse_number}
use mjos.Printf.Frame.{put_digits-IsWithin}

-- the bytes of a list stand from an address on
abbrev pub HasBytes : Mem → ℕ → List ℕ → Type 0
HasBytes m p [] = Unit {0}
HasBytes m p (c ∷ cs) = (m p ≡ c) × HasBytes m (p + 1) cs

-- decimal digits as characters
abbrev pub AllDigits : List ℕ → Type 0
AllDigits [] = Unit {0}
AllDigits (c ∷ cs) = (48 ≤ c) × (c ≤ 57) × AllDigits cs

-- the number that decimal digits stand for, behind the number `n`
abbrev pub value : List ℕ → ℕ → ℕ
value [] n = n
value (c ∷ cs) n = value cs (n * 10 + (c - 48))

value-grows : (cs : List ℕ) (n : ℕ) → n ≤ value cs n
value-grows [] n = omega arith
value-grows (c ∷ cs) n = omega (arith, value-grows cs (n * 10 + (c - 48)))

value-snoc : (cs : List ℕ) (c n : ℕ) → value (cs ++ c ∷ []) n ≡ value cs n * 10 + (c - 48)
value-snoc [] c n = refl
value-snoc (x ∷ cs) c n = value-snoc cs c (n * 10 + (x - 48))

AllDigits-snoc : (cs : List ℕ) (c : ℕ) → AllDigits cs → 48 ≤ c → c ≤ 57 → AllDigits (cs ++ c ∷ [])
AllDigits-snoc [] c d l h = (l, h, tt)
AllDigits-snoc (x ∷ cs) c d l h = (d.0, d.1, AllDigits-snoc cs c d.2 l h)

digit_char-decimal : (n : ℕ) → digit_char false (n % 10) ≡ 48 + n % 10
unfolding digit_char
digit_char-decimal n = let small : n % 10 < 10 = omega arith in ground arith

digits_step :
    (k n : ℕ)
    → tmp_digits (suc k) n 10 false
      ≡ digit_char false (n % 10) ∷ (if n / 10 == 0 then [] else tmp_digits k (n / 10) 10 false)
unfolding tmp_digits
digits_step k n = refl

module _ (fuel c : ℕ) (cs : List ℕ) (o : Out) where
  after_digit : Bool → Bool × Out
  after_digit b =
      put_digits fuel (if b then cs else c ∷ cs)
        (if b then put c o else record o { ptr = o.ptr + 1 })

  put_digits-fits :
      o.ptr < o.end
      → o.end < 2 ^ 64
      → put_digits (suc fuel) (c ∷ cs) o ≡ put_digits fuel cs (put c o)
  unfolding put_digits after_digit
  put_digits-fits h lim =
      let fits : ltb (o.ptr % 2 ^ 64) o.end ≡ true = ground arith in ap after_digit fits

-- 10 to the power k + 1
abbrev bound : ℕ → ℕ
bound zero = 10
bound (suc k) = bound k * 10

one_digit :
    (k n : ℕ)
    → n / 10 ≡ 0
    → let cs = reverse (tmp_digits (suc k) n 10 false) in (value cs 0 ≡ n) × AllDigits cs
one_digit k n e =
    let none_left : (n / 10 == 0) ≡ true = ground (arith, e) in
    rw (digits_step k n, none_left, digit_char-decimal n)
      (omega arith, (omega arith, omega arith, tt))

more_digits :
    (k n : ℕ)
    → (n / 10 == 0) ≡ false
    → (let cs = reverse (tmp_digits k (n / 10) 10 false) in (value cs 0 ≡ n / 10) × AllDigits cs)
    → let cs = reverse (tmp_digits (suc k) n 10 false) in (value cs 0 ≡ n) × AllDigits cs
more_digits k n e ih =
    let cs = reverse (tmp_digits k (n / 10) 10 false) in
    let d = 48 + n % 10 in
    let ends = value-snoc cs d 0 in
    let before = ih.0 in
    rw (digits_step k n, e, digit_char-decimal n)
      (omega (arith, ends, before), AllDigits-snoc cs d ih.1 (omega arith) (omega arith))

-- The digits in the order of printing are decimal, and stand for the number.
pub tmp_digits-value :
    (k n : ℕ)
    → n < bound k
    → let cs = reverse (tmp_digits (suc k) n 10 false) in (value cs 0 ≡ n) × AllDigits cs
tmp_digits-value zero n h = one_digit zero n (omega arith)
tmp_digits-value (suc k) n h = elim (Bool-cases (n / 10 == 0)) [
  | inl e ↦ one_digit (suc k) n (ground (arith, e))
  | inr e ↦ more_digits (suc k) n e (tmp_digits-value k (n / 10) (omega arith))
]

put-end : (c : ℕ) (o : Out) → ((put c o).ptr ≡ o.ptr + 1) × ((put c o).end ≡ o.end)
unfolding put
put-end c o = (refl, refl)

put-writes : (c : ℕ) (o : Out) → o.ptr < o.end → o.end < 2 ^ 64 → (put c o).mem o.ptr ≡ c
unfolding put
put-writes c o h lim =
    let same : o.ptr % 2 ^ 64 ≡ o.ptr = omega arith in
    let fits : ltb o.ptr o.end ≡ true = ground arith in rw (same, fits) (store_self o.mem o.ptr c)

-- The run returned, with the bytes printed from `start` on.
pub record Printed (r : Bool × Out) (start : ℕ) (cs : List ℕ) : Type 0 where
  pub returns : r.0 ≡ true
  pub ptr : r.1.ptr ≡ start + length cs
  pub bytes : HasBytes r.1.mem start cs

no_digits : (fuel : ℕ) (o : Out) → Printed (put_digits fuel [] o) o.ptr []
unfolding put_digits
no_digits fuel o = record { returns = refl; ptr = omega arith; bytes = tt }

-- Digits that fit, 64 at most, are all printed, in a round each.
pub put_digits-room :
    (fuel : ℕ) (cs : List ℕ) (o : Out)
    → length cs ≤ fuel
    → length cs ≤ 64
    → o.ptr + length cs ≤ o.end
    → o.end < 2 ^ 64
    → Printed (put_digits fuel cs o) o.ptr cs
unfolding put
put_digits-room fuel [] o f few room lim = no_digits fuel o
put_digits-room zero (c ∷ cs) o f few room lim = absurd (omega arith)
put_digits-room (suc fuel) (c ∷ cs) o f few room lim =
    let ends = put-end c o in
    let rest =
      put_digits-room fuel cs (put c o) (omega arith) (omega arith) (omega (arith, ends.0, ends.1))
        (omega (arith, ends.1)) in
    let inside = put_digits-IsWithin (put c o).mem (o.ptr + 1) o.end fuel cs (put c o) (record {
      start = omega (arith, ends.0);
      last = ends.1;
      bounds = (omega arith, lim);
      same = λ g h a out. refl;
    }) in
    let bytes = rest.bytes in
    let ptr = rest.ptr in
    let first =
      inside.same (omega (arith, ptr, ends.0)) (omega (arith, ptr, ends.0)) o.ptr
        (inl (omega arith))
      ∙ put-writes c o (omega arith) lim in
    rw (put_digits-fits fuel c cs o (omega arith) lim) (record {
      returns = rest.returns;
      ptr = omega (arith, ptr, ends.0);
      bytes = (first, rw (ends.0) at bytes);
    })

-- A number of less than 2 ^ 32 in memory, with something else behind it, is read as its value.
pub parse_number-HasBytes :
    (fuel : ℕ) (m : Mem) (p n : ℕ) (cs : List ℕ)
    → length cs < fuel
    → HasBytes m p cs
    → AllDigits cs
    → value cs n < 2 ^ 32
    → isdigit (m (p + length cs)) ≡ false
    → parse_number fuel m p n ≡ some (value cs n, p + length cs)
unfolding parse_number
parse_number-HasBytes zero m p n cs f b d v e = absurd (omega arith)
parse_number-HasBytes (suc fuel) m p n [] f b d v e =
    let here : p ≡ p + 0 = omega arith in
    let stop : isdigit (m p) ≡ false = ap (λ q. isdigit (m q)) here ∙ e in
    rw stop (ap (λ q. some (n, q)) here)
parse_number-HasBytes (suc fuel) m p n (c ∷ cs) f b d v e =
    let there : p + 1 + length cs ≡ p + suc (length cs) = omega arith in
    let low = d.0 in
    let high = d.1 in
    let digit : isdigit c ≡ true = ground arith in
    let grown = value-grows cs (n * 10 + (c - 48)) in
    let fits : (n * 10 + (c - 48)) % 2 ^ 32 ≡ n * 10 + (c - 48) = omega arith in
    let rest =
      parse_number-HasBytes fuel m (p + 1) (n * 10 + (c - 48)) cs (omega arith) b.1 d.2 v
        (ap (λ q. isdigit (m q)) there ∙ e) in
    rw (b.0, digit, fits) (rest ∙ ap (λ q. some (value cs (n * 10 + (c - 48)), q)) there)
