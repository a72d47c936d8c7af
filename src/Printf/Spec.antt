-- ===== src/Printf/Spec.antt =====
-- `vsnprintf` of kernel/misc/vsnprintf.c: how a conversion is parsed, and how its number is retrieved.
-- The arguments are the 64-bit slots of the `va_list`, as a function of their number.
use Prim.Native.Nat.{bit_and}
use mjos.Base.{
  ℕ, zero, suc, ◌+◌, ◌-◌, ◌*◌, ◌%◌, ◌^◌, ◌==◌, ltb, leb, not, ◌&&◌, ◌||◌, if◌then◌else◌, Bool, true,
  false, Option, none, some,
}
use mjos.Base.Int.{ℤ, negsuc}
use mjos.CString.{Mem}
use mjos.Printf.{Flags, int_of}

-- The locals of one conversion, with `fmt` and the number of the next argument.
pub record Spec : Type 0 where
  pub fmt : ℕ
  pub arg : ℕ
  pub flags : Flags
  pub width : ℤ
  pub precision : ℤ
  pub qualifier : ℕ

abbrev pub no_flags : Flags
no_flags = record {
  left = false;
  plus = false;
  space = false;
  prefix = false;
  zero_pad = false;
  lower = false;
  sign = false;
}

-- what they are at the `%`
abbrev pub fresh : ℕ → ℕ → Spec
fresh fmt arg = record {
  fmt = fmt;
  arg = arg;
  flags = no_flags;
  width = negsuc 0;
  precision = negsuc 0;
  qualifier = 0;
}

-- one character of the flags; `none` ends their loop
abbrev pub add_flag : ℕ → Flags → Option Flags
add_flag c f =
    if c == 45
    then some (record f { left = true })
    else if c == 43
    then some (record f { plus = true })
    else if c == 32
    then some (record f { space = true })
    else if c == 35
    then some (record f { prefix = true })
    else if c == 48
    then some (record f { zero_pad = true })
    else none

unfoldable pub parse_flags : ℕ → Mem → Spec → Option Spec
parse_flags zero m s = none
parse_flags (suc fuel) m s =
    let at = s.fmt + 1 in
    elim (add_flag (m at) s.flags) [
      | none ↦ some (record s { fmt = at })
      | some f ↦ parse_flags fuel m (record s { fmt = at; flags = f })
    ]

abbrev pub isdigit : ℕ → Bool
isdigit c = leb 48 c && leb c 57

-- `for (...; isdigit(*fmt); ++fmt)`: the number read, as the 32 bits of
-- an `int`, and the place behind it
unfoldable pub parse_number : ℕ → Mem → ℕ → ℕ → Option (ℕ × ℕ)
parse_number zero m fmt n = none
parse_number (suc fuel) m fmt n =
    let rest = parse_number fuel m (fmt + 1) ((n * 10 + (m fmt - 48)) % 2 ^ 32) in
    if isdigit (m fmt) then rest else some (n, fmt)

-- A width or a precision: digits, `*` (`va_arg(args, int)`), or what it was.
unfoldable pub parse_int : ℕ → Mem → (ℕ → ℕ) → ℕ → ℕ → ℤ → Option (ℤ × ℕ × ℕ)
unfolding parse_number
parse_int fuel m args fmt arg old =
    if isdigit (m fmt)
    then elim (parse_number fuel m fmt 0) [
      | none ↦ none
      | some (n, after) ↦ some (int_of n, after, arg)
    ]
    else if m fmt == 42
    then some (int_of (args arg), fmt + 1, arg + 1)
    else some (old, fmt, arg)

unfoldable pub parse_width : ℕ → Mem → (ℕ → ℕ) → Spec → Option Spec
unfolding parse_int
parse_width fuel m args s = elim (parse_int fuel m args s.fmt s.arg s.width) [
  | none ↦ none
  | some (w, fmt, arg) ↦ some (record s { width = w; fmt = fmt; arg = arg })
]

unfoldable pub parse_precision : ℕ → Mem → (ℕ → ℕ) → Spec → Option Spec
unfolding parse_int
parse_precision fuel m args s =
    if not (m s.fmt == 46)
    then some s
    else elim (parse_int fuel m args (s.fmt + 1) s.arg s.precision) [
      | none ↦ none
      | some (p, fmt, arg) ↦ some (record s { precision = p; fmt = fmt; arg = arg })
    ]

abbrev pub is_qualifier : ℕ → Bool
is_qualifier c = (c == 104) || (c == 108) || (c == 122) || (c == 116)

-- The qualifier: the character behind the first one, which is always equal to itself, so that both
-- are passed and the character is made upper case.
unfoldable pub parse_qualifier : Mem → Spec → Spec
parse_qualifier m s =
    if is_qualifier (m s.fmt)
    then record s { qualifier = bit_and (m (s.fmt + 1)) 0xdf; fmt = s.fmt + 2 }
    else s

abbrev pub and_then : Option Spec → (Spec → Option Spec) → Option Spec
and_then none f = none
and_then (some s) f = f s

unfoldable pub parse_spec : ℕ → Mem → (ℕ → ℕ) → Spec → Option Spec
unfolding parse_flags parse_width parse_precision parse_qualifier
parse_spec fuel m args s = and_then (parse_flags fuel m s) λ s1.
    and_then (parse_width fuel m args s1)
      λ s2. and_then (parse_precision fuel m args s2) λ s3. some (parse_qualifier m s3)

-- What the specifier asks for.
pub data Conversion : Type 0 where
  percent char string unknown : Conversion
  number : ℕ → Flags → ℕ → Conversion

-- The `switch` on the specifier: the base, the flags and the qualifier of a number.
unfoldable pub conversion : ℕ → Spec → Conversion
conversion c s =
    if c == 37
    then percent
    else if c == 99
    then char
    else if c == 115
    then string
    else if c == 111
    then number 8 s.flags s.qualifier
    else if c == 112
    then number 16 (record s.flags { lower = true }) 76
    else if c == 120
    then number 16 (record s.flags { lower = true }) s.qualifier
    else if c == 88
    then number 16 s.flags s.qualifier
    else if (c == 100) || (c == 105)
    then number 10 (record s.flags { sign = true }) s.qualifier
    else if c == 117
    then number 10 s.flags s.qualifier
    else unknown

-- the low `w` bits, and those with their sign as 64 bits
abbrev pub sign_extend : ℕ → ℕ → ℕ
sign_extend w x = let low = x % 2 ^ w in if ltb low (2 ^ (w - 1)) then low else 2 ^ 64 - 2 ^ w + low

-- The `switch` that retrieves the number.
unfoldable pub retrieve : ℕ → Bool → ℕ → ℕ
retrieve qualifier signed x =
    if qualifier == 72
    then (if signed then sign_extend 8 x else x % 2 ^ 8)
    else if qualifier == 104
    then (if signed then sign_extend 16 x else x % 2 ^ 16)
    else if qualifier == 116
    then sign_extend 32 x
    else if (qualifier == 108) || (qualifier == 76) || (qualifier == 122)
    then x % 2 ^ 64
    else x % 2 ^ 32
