-- ===== src/CString/Strtol/Result.antt =====
-- What `strtol` returns for a numeral.
use mjos.Base.{
  ℕ, zero, suc, ◌+◌, ◌-◌, ◌^◌, ◌≤◌, ◌<◌, ◌≡◌, ◌≢◌, inr, refl, ap, ◌∙◌, ◌==◌, ltb, leb, ◌||◌,
  if◌then◌else◌, Bool, true, false, some, List, length, arith,
}
use mjos.Base.Int.{ℤ, pos}
use mjos.CString.{Mem}
use mjos.CString.Strtol.{
  isspace, Any, no_digits, digits, too_big, is_too_big, skip_space, limit, negated, finish_number,
  in_base, is_hex, base_for, after_sign, strtol,
}
use mjos.CString.Strtol.Value.{number, Digits, Reads, HasDigits, scan_digits-number}

abbrev pub clamp : ℕ → ℕ → ℕ
clamp n lim = if leb n lim then n else lim

abbrev pub signed : Bool → ℕ → ℤ
signed neg n = if neg then negated n else pos n

finish-clamp :
    (neg : Bool) (nptr n acc s : ℕ) (any : Any)
    → HasDigits any
    → Reads (limit neg) n any acc
    → finish_number neg nptr (record { acc = acc; any = any; s = s })
      ≡ record { value = signed neg (clamp n (limit neg)); end = some (s - 1) }
unfolding HasDigits Reads finish_number is_too_big
finish-clamp neg nptr n acc s no_digits h r = absurd h
finish-clamp neg nptr n acc s digits h (le, e) =
    let fit : leb n (limit neg) ≡ true = ground (arith, le) in rw (fit, e) refl
finish-clamp neg nptr n acc s too_big h r =
    let over : leb n (limit neg) ≡ false = ground (arith, r) in rw over refl

limit-bound : (neg : Bool) → limit neg < 2 ^ 64
unfolding limit
limit-bound true = omega arith
limit-bound false = omega arith

in_base-number :
    (fuel : ℕ) (m : Mem) (nptr : ℕ) (neg : Bool) (base c s : ℕ) (ds : List ℕ)
    → base ≢ 0
    → Digits m base ds c s
    → length ds ≢ 0
    → length ds < fuel
    → in_base fuel m nptr neg base c s
      ≡ some (record {
        value = signed neg (clamp (number base 0 ds) (limit neg));
        end = some (s + length ds - 1);
      })
unfolding Reads in_base number
in_base-number fuel m nptr neg base c s ds nz g n enough =
    let (t, run, reads, end, some_digits) =
      scan_digits-number fuel m base (limit neg) 0 c ds (record { acc = 0; any = no_digits; s = s })
        nz (limit-bound neg) g (omega arith, refl) enough in
    rw (run, in_base)
      (ap some
          (finish-clamp neg nptr (number base 0 ds) t.acc t.s t.any (some_digits (inr n)) reads)
        ∙ ap
            (λ e. some (record {
              value = signed neg (clamp (number base 0 ds) (limit neg));
              end = some (e - 1);
            }))
            end)

after_sign-plain :
    (fuel : ℕ) (m : Mem) (nptr : ℕ) (neg : Bool) (base c s : ℕ)
    → base ≢ 0
    → base ≢ 16
    → after_sign fuel m nptr neg base c s ≡ in_base fuel m nptr neg base c s
unfolding after_sign is_hex base_for
after_sign-plain fuel m nptr neg base c s nz no_hex =
    let not_0 : (base == 0) ≡ false = ground (arith, nz) in
    let not_16 : (base == 16) ≡ false = ground (arith, no_hex) in rw (not_0, not_16) refl

-- The text of a number: an optional sign and the digits; what stands in front of the digits is no
-- white space and, without the sign, is not read as one.
unfoldable pub IsNumeral : Mem → ℕ → Bool → List ℕ → ℕ → Type 0
IsNumeral m base true ds s = (m s ≡ 45) × Digits m base ds (m (s + 1)) (s + 2)
IsNumeral m base false ds s =
    (isspace (m s) ≡ false) × (m s ≢ 45) × (m s ≢ 43) × Digits m base ds (m s) (s + 1)

-- where its digits start
unfoldable pub first_digit : Bool → ℕ → ℕ
first_digit neg s = if neg then s + 1 else s

skip-none :
    (fuel : ℕ) (m : Mem) (s : ℕ) → isspace (m s) ≡ false → skip_space (suc fuel) m s ≡ some s
unfolding skip_space
skip-none fuel m s e = rw e refl

minus-isspace : (c : ℕ) → c ≡ 45 → isspace c ≡ false
unfolding isspace
minus-isspace c e = rw e refl

strtol-minus :
    (fuel : ℕ) (m : Mem) (nptr base : ℕ)
    → ((base == 1) || ltb 36 base) ≡ false
    → skip_space fuel m nptr ≡ some nptr
    → (m nptr == 45) ≡ true
    → strtol fuel m nptr base ≡ after_sign fuel m nptr true base (m (nptr + 1)) (nptr + 2)
unfolding strtol
strtol-minus fuel m nptr base valid skip minus = rw valid (rw (skip, strtol) (rw minus refl))

strtol-plain :
    (fuel : ℕ) (m : Mem) (nptr base : ℕ)
    → ((base == 1) || ltb 36 base) ≡ false
    → skip_space fuel m nptr ≡ some nptr
    → (m nptr == 45) ≡ false
    → (m nptr == 43) ≡ false
    → strtol fuel m nptr base ≡ after_sign fuel m nptr false base (m nptr) (nptr + 1)
unfolding strtol
strtol-plain fuel m nptr base valid skip minus plus =
    rw valid (rw (skip, strtol) (rw (minus, plus) refl))

-- For a numeral in a base from 2 to 36 other than 16, with at least one digit, and more rounds
-- than digits: `strtol` returns, its value is the number with its sign, or the limit of a long on
-- that side where the number is beyond it, and `*endptr` is behind the last digit.
pub strtol-number :
    (fuel : ℕ) (m : Mem) (nptr base : ℕ) (neg : Bool) (ds : List ℕ)
    → 2 ≤ base
    → base ≤ 36
    → base ≢ 16
    → IsNumeral m base neg ds nptr
    → length ds ≢ 0
    → length ds < fuel
    → strtol fuel m nptr base
      ≡ some (record {
        value = signed neg (clamp (number base 0 ds) (limit neg));
        end = some (first_digit neg nptr + length ds);
      })
unfolding IsNumeral first_digit
strtol-number zero m nptr base neg ds lo hi no_hex g n enough = absurd (omega arith)
strtol-number (suc fuel) m nptr base true ds lo hi no_hex (sign, g) n enough =
    let valid : ((base == 1) || ltb 36 base) ≡ false = ground arith in
    let minus : (m nptr == 45) ≡ true = ground (arith, sign) in
    let end : nptr + 2 + length ds - 1 ≡ nptr + 1 + length ds = omega arith in
    strtol-minus (suc fuel) m nptr base valid (skip-none fuel m nptr (minus-isspace (m nptr) sign))
      minus
    ∙ after_sign-plain (suc fuel) m nptr true base (m (nptr + 1)) (nptr + 2) (omega arith) no_hex
    ∙ in_base-number (suc fuel) m nptr true base (m (nptr + 1)) (nptr + 2) ds (omega arith) g n
        enough
    ∙ ap
        (λ e.
          some
            (record { value = signed true (clamp (number base 0 ds) (limit true)); end = some e }))
        end
strtol-number (suc fuel) m nptr base false ds lo hi no_hex (space, no_minus, no_plus, g) n enough =
    let valid : ((base == 1) || ltb 36 base) ≡ false = ground arith in
    let minus : (m nptr == 45) ≡ false = ground (arith, no_minus) in
    let plus : (m nptr == 43) ≡ false = ground (arith, no_plus) in
    let end : nptr + 1 + length ds - 1 ≡ nptr + length ds = omega arith in
    strtol-plain (suc fuel) m nptr base valid (skip-none fuel m nptr space) minus plus
    ∙ after_sign-plain (suc fuel) m nptr false base (m nptr) (nptr + 1) (omega arith) no_hex
    ∙ in_base-number (suc fuel) m nptr false base (m nptr) (nptr + 1) ds (omega arith) g n enough
    ∙ ap
        (λ e.
          some (record {
            value = signed false (clamp (number base 0 ds) (limit false));
            end = some e;
          }))
        end
