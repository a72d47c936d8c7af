-- ===== src/Printf/Decimal.antt =====
-- `fmt_number` as a whole: what is printed is read back as the number, and negative numbers lose their
-- sign.
use mjos.Base.{
  ℕ, zero, suc, ◌+◌, ◌-◌, ◌/◌, ◌%◌, ◌^◌, ◌<◌, ◌≤◌, ◌≡◌, refl, sym, ap, ◌∙◌, ◌==◌, leb, Bool, true,
  false, Bool-cases, inl, inr, some, List, [], ◌∷◌, arith, length, length-append,
}
use mjos.Base.Int.{ℤ, negsuc, minus}
use mjos.Printf.{int_of, Out, Flags, put_many}
use mjos.Printf.Number.{
  tmp_digits, reverse, put_digits, put_prefix, put_front, put_behind, sign_char, fmt_number,
}
use mjos.Printf.Spec.{no_flags, isdigit, parse_number, retrieve}
use mjos.Printf.Digits.{Printed, tmp_digits-value, put_digits-room, parse_number-HasBytes}

plain_front :
    (num i : ℕ) (o : Out)
    → put_front no_flags 10
        (sign_char no_flags num)
        (minus (minus (negsuc 0) i) 0)
        (minus (negsuc 0) i)
        i
        o
      ≡ o
unfolding put_front put_prefix put_many
plain_front num i o = refl

put_behind-right :
    (flags : Flags) (v : ℤ) (r : Bool × Out) → flags.left ≡ false → put_behind flags v r ≡ r
unfolding put_behind
put_behind-right flags v (true, o) e = rw e refl
put_behind-right flags v (false, o) e = refl

-- the characters that `fmt_number` prints in the end
abbrev pub decimal : ℕ → List ℕ
decimal num = reverse (tmp_digits 64 num 10 false)

plain_number :
    (fuel num : ℕ) (o : Out)
    → fmt_number fuel num 10 no_flags (negsuc 0) (negsuc 0) o ≡ put_digits fuel (decimal num) o
unfolding fmt_number
plain_number fuel num o =
    put_behind-right no_flags _ _ refl
    ∙ ap (put_digits fuel (decimal num)) (plain_front num (length (tmp_digits 64 num 10 false)) o)

length-reverse : (xs : List ℕ) → length (reverse xs) ≡ length xs
length-reverse [] = refl
length-reverse (x ∷ xs) = omega (arith, length-append (reverse xs) (x ∷ []), length-reverse xs)

length-tmp_digits : (k num base : ℕ) (lower : Bool) → length (tmp_digits k num base lower) ≤ k
unfolding tmp_digits
length-tmp_digits zero num base lower = omega arith
length-tmp_digits (suc k) num base lower =
    let rest = length-tmp_digits k (num / base) base lower in
    elim (Bool-cases (num / base == 0)) [ inl e ↦ rw e (omega arith) | inr e ↦ rw e (omega arith) ]

-- `%u` without a width or a precision, given room for 64 digits and as many rounds: `fmt_number`
-- returns, behind the digits.
fmt_number-Printed :
    (fuel num : ℕ) (o : Out)
    → 64 ≤ fuel
    → o.ptr + 64 ≤ o.end
    → o.end < 2 ^ 64
    → Printed (fmt_number fuel num 10 no_flags (negsuc 0) (negsuc 0) o) o.ptr (decimal num)
fmt_number-Printed fuel num o f room lim =
    let same = length-reverse (tmp_digits 64 num 10 false) in
    let few = length-tmp_digits 64 num 10 false in
    rw (plain_number fuel num o) (
      put_digits-room fuel (decimal num) o (omega (arith, same, few)) (omega (arith, same, few))
        (omega (arith, same, few)) lim)

-- `%u` of a number below 2 ^ 31 without a width or a precision, given room for 64 digits below
-- the end of the address space and as many rounds: `fmt_number` returns, and the number scan of
-- the same file, where no digit follows, reads the number back from the buffer and stops where
-- `fmt_number` has stopped.
pub fmt_number-parse_number :
    (fuel num : ℕ) (o : Out)
    → num < 2 ^ 31
    → 64 ≤ fuel
    → o.ptr + 64 ≤ o.end
    → o.end < 2 ^ 64
    → (let r = fmt_number fuel num 10 no_flags (negsuc 0) (negsuc 0) o in
        isdigit (r.1.mem r.1.ptr) ≡ false)
    → let r = fmt_number fuel num 10 no_flags (negsuc 0) (negsuc 0) o in
      (r.0 ≡ true) × (parse_number 65 r.1.mem o.ptr 0 ≡ some (num, r.1.ptr))
fmt_number-parse_number fuel num o small f room lim stop =
    let r = fmt_number fuel num 10 no_flags (negsuc 0) (negsuc 0) o in
    let printed = fmt_number-Printed fuel num o f room lim in
    let digits = tmp_digits-value 63 num (omega arith) in
    let same = length-reverse (tmp_digits 64 num 10 false) in
    let few = length-tmp_digits 64 num 10 false in
    let here = printed.ptr in
    (
      printed.returns,
      parse_number-HasBytes 65 r.1.mem o.ptr 0 (decimal num) (omega (arith, same, few))
            printed.bytes digits.1 (omega (arith, digits.0))
            (ap (λ p. isdigit (r.1.mem p)) (sym here) ∙ stop)
          ∙ ap (λ v. some (v, o.ptr + length (decimal num))) (digits.0)
          ∙ ap (λ p. some (num, p)) (sym here),
    )

-- A negative argument of `%d` is printed as a positive number: without a qualifier the argument is
-- retrieved as an unsigned 32-bit number, whose sign as a 64-bit number is never negative.
pub retrieve-negative :
    (flags : Flags) (x n : ℕ)
    → int_of x ≡ negsuc n
    → flags.plus ≡ false
    → flags.space ≡ false
    → (retrieve 0 true x ≡ 2 ^ 32 - (n + 1)) × (sign_char flags (retrieve 0 true x) ≡ 0)
unfolding retrieve
retrieve-negative flags x n e p s =
    let small : leb (2 ^ 63) (x % 2 ^ 32) ≡ false = ground arith in
    (
      ground (arith, e),
      elim (Bool-cases flags.sign) [ inl t ↦ rw (t, small, p, s) refl | inr t ↦ rw t refl ],
    )
