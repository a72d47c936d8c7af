-- ===== src/CString/Strtol/Tests.antt =====
-- Numbers that `strtol` reads.
use mjos.Base.{ℕ, ◌≡◌, ◌≢◌, inl, refl, ◌==◌, if◌then◌else◌, true, none, some, [], ◌∷◌, arith}
use mjos.Base.Int.{pos, negsuc}
use mjos.CString.{Mem}
use mjos.CString.Strtol.{
  isspace, digit_value, add_digit, is_too_big, scan_digits, skip_space, limit, finish_number,
  in_base, is_hex, base_for, after_sign, strtol,
}
use mjos.CString.Strtol.Value.{number, Digits}
use mjos.CString.Strtol.Result.{IsNumeral, first_digit, strtol-number}

-- "-42" at 10, " 0x1F" at 20, and nothing else
abbrev texts : Mem
texts a =
    if a == 10
    then 45
    else if a == 11
    then 52
    else if a == 12
    then 50
    else if a == 20
    then 32
    else if a == 21
    then 48
    else if a == 22
    then 120
    else if a == 23
    then 49
    else if a == 24
    then 70
    else 0

hexadecimal : strtol 9 texts 20 0 ≡ some (record { value = pos 31; end = some 25 })
unfolding strtol skip_space isspace after_sign is_hex base_for in_base scan_digits add_digit
    digit_value is_too_big finish_number limit
hexadecimal = refl

invalid_base : strtol 9 texts 20 37 ≡ some (record { value = pos 0; end = none })
unfolding strtol
invalid_base = refl

numeral : IsNumeral texts 10 true (4 ∷ 2 ∷ []) 10
unfolding IsNumeral Digits digit_value
numeral = (refl, (refl, omega arith, (refl, omega arith, inl refl)))

two : ◌≢◌ {A = ℕ} 2 0
two e = omega (arith, e)

strtol-number_example : strtol 9 texts 10 10 ≡ some (record { value = negsuc 41; end = some 13 })
unfolding number limit first_digit
strtol-number_example =
    strtol-number 9 texts 10 10 true (4 ∷ 2 ∷ []) (omega arith) (omega arith)
      (λ e. omega (arith, e)) numeral two (omega arith)
