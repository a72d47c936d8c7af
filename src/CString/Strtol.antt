-- ===== src/CString/Strtol.antt =====
-- `strtol` of kernel/libc/stdlib/strtol.c, with `isspace` of kernel/libc/include/ctype.h. An unsigned long is
-- its 64 bits. The loops take fuel.
pub mod Value
pub mod Result
mod Tests
use mjos.Base.{
  ℕ, zero, suc, ◌+◌, ◌-◌, ◌*◌, ◌/◌, ◌%◌, ◌^◌, ◌==◌, ltb, leb, ◌&&◌, ◌||◌, if◌then◌else◌, Bool, true,
  false, Option, none, some,
}
use mjos.Base.Int.{ℤ, pos, negsuc}
use mjos.CString.{Mem}

-- `isspace`
unfoldable pub isspace : ℕ → Bool
isspace x = (x == 32) || (leb 9 x && leb x 13)

-- The value of a digit or letter, as the loop reads it.
unfoldable pub digit_value : ℕ → Option ℕ
digit_value c =
    if leb 48 c && leb c 57
    then some (c - 48)
    else if leb 65 c && leb c 90
    then some (c - 55)
    else if leb 97 c && leb c 122
    then some (c - 87)
    else none

-- What `any` says: no digit yet, some, or that the number is too big.
pub data Any : Type 0 where
  no_digits digits too_big : Any

unfoldable pub is_too_big : Any → Bool
is_too_big too_big = true
is_too_big _ = false

-- `acc`, `any` and `s`
pub record Scan : Type 0 where
  pub acc : ℕ
  pub any : Any
  pub s : ℕ

-- A digit `d` in the loop.
unfoldable pub add_digit : ℕ → ℕ → ℕ → ℕ → Scan → Scan
add_digit base cutoff cutlim d t =
    if is_too_big t.any || ltb cutoff t.acc || ((t.acc == cutoff) && ltb cutlim d)
    then record t { any = too_big }
    else record t { any = digits; acc = (t.acc * base + d) % 2 ^ 64 }

-- The loop, with `c` read and `s` behind it.
unfoldable pub scan_digits : ℕ → Mem → ℕ → ℕ → ℕ → ℕ → Scan → Option Scan
scan_digits zero m base cutoff cutlim c t = none
scan_digits (suc fuel) m base cutoff cutlim c t =
    let go = λ (d : ℕ).
      let t' = add_digit base cutoff cutlim d t in
      scan_digits fuel m base cutoff cutlim (m t'.s) (record t' { s = t'.s + 1 }) in
    elim (digit_value c) [ none ↦ some t | some d ↦ if leb base d then some t else go d ]

-- The number of white space characters in front.
unfoldable pub skip_space : ℕ → Mem → ℕ → Option ℕ
skip_space zero m s = none
skip_space (suc fuel) m s =
    let rest = skip_space fuel m (s + 1) in if isspace (m s) then rest else some s

-- The result: the number and `*endptr`; without an end where `*endptr` is not written.
pub record Number : Type 0 where
  pub value : ℤ
  pub end : Option ℕ

-- `-(unsigned long)LONG_MIN`, or `LONG_MAX`
unfoldable pub limit : Bool → ℕ
limit neg = if neg then 2 ^ 63 else 2 ^ 63 - 1

abbrev pub negated : ℕ → ℤ
negated zero = pos 0
negated (suc n) = negsuc n

-- The lines behind the loop; `acc` is at most the limit.
unfoldable pub finish_number : Bool → ℕ → Scan → Number
finish_number neg nptr t =
    let clamped = if is_too_big t.any then limit neg else t.acc in
    record {
      value = if neg then negated clamped else pos clamped;
      end = elim t.any [
        | no_digits ↦ some nptr
        | digits ↦ some (t.s - 1)
        | too_big ↦ some (t.s - 1)
      ];
    }

-- The loop and what follows, with `c` read and `s` behind it.
unfoldable pub in_base : ℕ → Mem → ℕ → Bool → ℕ → ℕ → ℕ → Option Number
in_base fuel m nptr neg base c s =
    elim (scan_digits fuel m base (limit neg / base) (limit neg % base) c
      (record { acc = 0; any = no_digits; s = s })) [
        | none ↦ none
        | some t ↦ some (finish_number neg nptr t)
      ]

-- The tests on the base and the prefix.
unfoldable pub is_hex : ℕ → ℕ → ℕ → Bool
is_hex base c next = ((base == 0) || (base == 16)) && ((c == 48) && ((next == 120) || (next == 88)))

unfoldable pub base_for : ℕ → ℕ → ℕ
base_for base c = if base == 0 then (if c == 48 then 8 else 10) else base

-- From the prefix on.
unfoldable pub after_sign : ℕ → Mem → ℕ → Bool → ℕ → ℕ → ℕ → Option Number
after_sign fuel m nptr neg base c s =
    if is_hex base c (m s)
    then in_base fuel m nptr neg 16 (m (s + 1)) (s + 2)
    else in_base fuel m nptr neg (base_for base c) c s

-- `strtol`, where `endptr` is not NULL and `base` is not negative
unfoldable pub strtol : ℕ → Mem → ℕ → ℕ → Option Number
strtol fuel m nptr base =
    if (base == 1) || ltb 36 base
    then some (record { value = pos 0; end = none })
    else elim (skip_space fuel m nptr) [
      | none ↦ none
      | some s ↦
          if m s == 45
          then after_sign fuel m nptr true base (m (s + 1)) (s + 2)
          else if m s == 43
          then after_sign fuel m nptr false base (m (s + 1)) (s + 2)
          else after_sign fuel m nptr false base (m s) (s + 1)
    ]
