-- ===== src/Printf/Format.antt =====
-- `vsnprintf` of kernel/misc/vsnprintf.c: the branches of a conversion, the loop over the format, and the
-- terminating zero.
use mjos.Base.{
  ℕ, zero, suc, ◌+◌, ◌-◌, ◌%◌, ◌^◌, ◌==◌, ltb, leb, if◌then◌else◌, Bool, true, false, Option, none,
  some,
}
use mjos.Base.Int.{ℤ, excess}
use mjos.CString.{Mem, store}
use mjos.Printf.{Out, Flags, put, put_many, fmt_string}
use mjos.Printf.Number.{fmt_number}
use mjos.Printf.Spec.{
  Spec, fresh, parse_spec, Conversion, percent, char, string, unknown, number, conversion, retrieve,
}

-- the state of the loop of `vsnprintf`
pub record Cursor : Type 0 where
  pub fmt : ℕ
  pub arg : ℕ
  pub out : Out

-- a round of the loop: go on, return, or stay in an inner loop
pub data Turn : Type 0 where
  next : Cursor → Turn
  stop stuck : Out → Turn

abbrev pub printed : ℕ → ℕ → Bool × Out → Turn
printed fmt arg (true, o) = next (record { fmt = fmt; arg = arg; out = o })
printed fmt arg (false, o) = stuck o

-- `%c`: the padding of both sides is one less than the width
unfoldable pub fmt_char : ℕ → Flags → ℤ → Out → Out
unfolding put put_many
fmt_char c flags width o =
    let front = (if flags.left then o else put_many (excess width 1) 32 o) in
    let done = put (c % 256) front in if flags.left then put_many (excess width 1) 32 done else done

-- the branch of the `switch` on the specifier, with the number printed behind it
unfoldable pub convert : ℕ → (ℕ → ℕ) → Spec → Out → Conversion → Turn
unfolding put fmt_char fmt_string retrieve fmt_number
convert fuel args s o percent = next (record { fmt = s.fmt + 1; arg = s.arg; out = put 37 o })
convert fuel args s o char =
    next
      (record { fmt = s.fmt + 1; arg = s.arg + 1; out = fmt_char (args s.arg) s.flags s.width o })
convert fuel args s o string =
    printed (s.fmt + 1) (s.arg + 1) (fmt_string fuel (args s.arg) s.flags s.width s.precision o)
convert fuel args s o unknown = next (record { fmt = s.fmt; arg = s.arg; out = o })
convert fuel args s o (number base flags qualifier) =
    printed (s.fmt + 1) (s.arg + 1) (
      fmt_number fuel (retrieve qualifier flags.sign (args s.arg)) base flags s.width s.precision o)

abbrev pub convert_spec : ℕ → (ℕ → ℕ) → Out → Option Spec → Turn
convert_spec fuel args o none = stuck o
convert_spec fuel args o (some s) = convert fuel args s o (conversion (o.mem s.fmt) s)

-- One round of `while (*fmt)`.
unfoldable pub turn : ℕ → (ℕ → ℕ) → Cursor → Turn
unfolding put parse_spec convert conversion
turn fuel args cur =
    let c = cur.out.mem cur.fmt in
    if c == 0
    then stop cur.out
    else if c == 37
    then convert_spec fuel args cur.out (parse_spec fuel cur.out.mem args (fresh cur.fmt cur.arg))
    else next (record { fmt = cur.fmt + 1; arg = cur.arg; out = put c cur.out })

abbrev pub after_turn : (Cursor → Bool × Out) → Turn → Bool × Out
after_turn rest (next cur) = rest cur
after_turn rest (stop o) = (true, o)
after_turn rest (stuck o) = (false, o)

-- `while (*fmt)`
unfoldable pub run : ℕ → ℕ → (ℕ → ℕ) → Cursor → Bool × Out
unfolding turn
run zero inner args cur = (false, cur.out)
run (suc fuel) inner args cur = after_turn (run fuel inner args) (turn inner args cur)

-- the terminating zero, for a size that is not 0
unfoldable pub terminate : ℕ → Out → Out
unfolding store
terminate size o =
    let at = o.ptr % 2 ^ 64 in
    let last = (if ltb at o.end then at else o.end - 1) in
    if size == 0 then o else record o { mem = store o.mem last 0 }

-- `ptr + size`, or the last address where that wraps around
abbrev pub end_of : ℕ → ℕ → ℕ
end_of buf size = if leb (2 ^ 64) (buf + size) then 2 ^ 64 - 1 else buf + size

-- `vsnprintf`: whether it returned, what it returns, and the memory. The rounds of the outer loop
-- and those of an inner one have their own fuel.
unfoldable pub vsnprintf : ℕ → ℕ → Mem → ℕ → ℕ → ℕ → (ℕ → ℕ) → Bool × ℕ × Mem
unfolding run terminate
vsnprintf fuel inner m buf size fmt args =
    let end = end_of buf size in
    let start : Cursor = record {
      fmt = fmt;
      arg = 0;
      out = record { mem = m; ptr = buf; end = end };
    } in
    let (returned, o) = run fuel inner args start in
    let o' = (if returned then terminate (end - buf) o else o) in
    (returned, (o'.ptr - buf) % 2 ^ 64, o'.mem)
