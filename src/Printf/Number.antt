-- ===== src/Printf/Number.antt =====
-- `fmt_number` of kernel/misc/vsnprintf.c.
use Prim.Native.Nat.{bit_or}
use mjos.Base.{
  ℕ, zero, suc, ◌+◌, ◌/◌, ◌%◌, ◌^◌, ◌==◌, ltb, leb, not, ◌&&◌, ◌||◌, if◌then◌else◌, Bool, true,
  false, List, [], ◌∷◌, ◌++◌, length,
}
use mjos.Base.Int.{ℤ, dec, minus, excess}
use mjos.Printf.{Out, Flags, put, put_many}

-- `digits[d]`, with the bit of `locase`
unfoldable pub digit_char : Bool → ℕ → ℕ
digit_char lower d =
    let c = (if ltb d 10 then 48 + d else 87 + d) in if lower then bit_or c 0x20 else c

-- The loop that fills `tmp`, the last digit first: `tmp` has 65 places, and 64 bits need 64 at most.
unfoldable pub tmp_digits : ℕ → ℕ → ℕ → Bool → List ℕ
unfolding digit_char
tmp_digits zero num base lower = []
tmp_digits (suc fuel) num base lower =
    let rest = tmp_digits fuel (num / base) base lower in
    digit_char lower (num % base) ∷ (if num / base == 0 then [] else rest)

-- `sign`: 0 for none. A number from 2 ^ 63 on is negative as `_i64`.
abbrev pub sign_char : Flags → ℕ → ℕ
sign_char flags num =
    if not flags.sign
    then 0
    else if leb (2 ^ 63) num
    then 45
    else if flags.plus
    then 43
    else if flags.space
    then 32
    else 0

-- `width` with the sign and the prefix taken off
abbrev pub width_behind : Flags → ℕ → ℕ → ℤ → ℤ
width_behind flags num base width =
    let signed = (if sign_char flags num == 0 then width else dec width) in
    if not flags.prefix
    then signed
    else if base == 16
    then dec (dec signed)
    else if num == 0
    then signed
    else dec signed

-- the sign and the prefix; `num` is 0 here, so that only `0x` is ever printed
unfoldable pub put_prefix : Flags → ℕ → ℕ → Out → Out
unfolding put
put_prefix flags base sign o =
    let signed = (if sign == 0 then o else put sign o) in
    if flags.prefix && (base == 16)
    then put (if flags.lower then bit_or 88 0x20 else 88) (put 48 signed)
    else signed

-- `while (i > 0)`: the digits that are left, the first to print in front. Where the buffer is full the
-- loop leaves `i` as it is.
unfoldable pub put_digits : ℕ → List ℕ → Out → Bool × Out
unfolding put
put_digits fuel [] o = (true, o)
put_digits zero (c ∷ ds) o = (false, o)
put_digits (suc fuel) (c ∷ ds) o =
    let room = ltb (o.ptr % 2 ^ 64) o.end in
    let next = (if room then ds else c ∷ ds) in
    put_digits fuel next (if room then put c o else record o { ptr = o.ptr + 1 })

abbrev pub reverse : List ℕ → List ℕ
reverse [] = []
reverse (x ∷ xs) = reverse xs ++ x ∷ []

-- The padding in front of the digits: spaces, the sign and the prefix, then the inner padding, and the
-- zeros of the precision. The two counters are `width` and `precision` behind the digit loop, and `i`
-- is the number of digits.
unfoldable pub put_front : Flags → ℕ → ℕ → ℤ → ℤ → ℕ → Out → Out
unfolding put_many put_prefix
put_front flags base sign width precision i o =
    let outer = (if flags.zero_pad || flags.left then o else put_many (excess width 1) 32 o) in
    let signed = put_prefix flags base sign outer in
    let pad = (if flags.zero_pad then 48 else 32) in
    let rounds = (if flags.zero_pad then excess width 0 else 0) in
    let inner = (if flags.left then signed else put_many rounds pad signed) in
    put_many (excess precision i) 48 inner

-- what follows the digits: the trailing spaces of a left-justified number
unfoldable pub put_behind : Flags → ℤ → Bool × Out → Bool × Out
unfolding put_many
put_behind flags width (returned, o) =
    (returned, if returned && flags.left then put_many (excess width 0) 32 o else o)

-- `fmt_number`
unfoldable pub fmt_number : ℕ → ℕ → ℕ → Flags → ℤ → ℤ → Out → Bool × Out
fmt_number fuel num base flags width precision o =
    let ds = tmp_digits 64 num base flags.lower in
    let i = length ds in
    let left_precision = minus precision i in
    let left_width =
      minus (minus (width_behind flags num base width) i) (excess left_precision 0) in
    put_behind flags left_width (
      put_digits fuel (reverse ds)
        (put_front flags base (sign_char flags num) left_width left_precision i o))
