-- ===== src/Printf/Tests.antt =====
-- Runs of the formatted output, and the theorems about it at concrete buffers.
use mjos.Base.{
  ℕ, ◌+◌, ◌-◌, ◌^◌, ◌<◌, ◌≤◌, ◌≡◌, refl, inr, if◌then◌else◌, ltb, Bool, true, false, some, List, [],
  ◌∷◌, arith, get_or,
}
use mjos.Base.Int.{negsuc}
use mjos.CString.{Mem, store}
use mjos.Printf.{Out, put, put_many}
use mjos.Printf.Number.{
  digit_char, tmp_digits, put_prefix, put_digits, put_front, put_behind, fmt_number,
}
use mjos.Printf.Spec.{
  no_flags, isdigit, parse_flags, parse_number, parse_int, parse_width, parse_precision,
  parse_qualifier, parse_spec, conversion, retrieve,
}
use mjos.Printf.Format.{Cursor, end_of, convert, turn, run, terminate, vsnprintf}
use mjos.Printf.Safety.{vsnprintf-frame}
use mjos.Printf.Decimal.{fmt_number-parse_number}

-- a format from address 100 on, and zeros elsewhere
abbrev at_100 : List ℕ → Mem
at_100 text a = if ltb a 100 then 0 else get_or text (a - 100) 0

-- "a=%5u;"
abbrev a_is : List ℕ
a_is = 97 ∷ 61 ∷ 37 ∷ 53 ∷ 117 ∷ 59 ∷ []

-- "%lu;"
abbrev long : List ℕ
long = 37 ∷ 108 ∷ 117 ∷ 59 ∷ []

abbrev length_of : Bool × ℕ × Mem → ℕ
length_of r = r.1

-- A width of 5 pads the number to 4 characters.
width_is_short : length_of (vsnprintf 9 9 (at_100 a_is) 200 64 100 (λ i. 42)) ≡ 7
unfolding vsnprintf run turn terminate convert parse_spec parse_flags parse_number parse_int
    parse_width parse_precision parse_qualifier conversion retrieve fmt_number tmp_digits put_front
    put_prefix put_digits put_behind put_many put
width_is_short = refl

-- "%lu" prints nothing: the qualifier takes the specifier with it.
long_is_lost : length_of (vsnprintf 9 9 (at_100 long) 200 64 100 (λ i. 42)) ≡ 1
unfolding vsnprintf run turn terminate convert parse_spec parse_flags parse_number parse_int
    parse_width parse_precision parse_qualifier conversion retrieve fmt_number tmp_digits put_front
    put_prefix put_digits put_behind put_many put
long_is_lost = refl

abbrev room : Out
room = record { mem = λ a. 0; ptr = 200; end = 300 }

nothing_follows :
    let r = fmt_number 64 407 10 no_flags (negsuc 0) (negsuc 0) room in
    isdigit (r.1.mem r.1.ptr) ≡ false
unfolding fmt_number tmp_digits digit_char put_front put_prefix put_digits put_behind put_many put
    store
nothing_follows = refl

fmt_number-parse_number_example :
    let r = fmt_number 64 407 10 no_flags (negsuc 0) (negsuc 0) room in
    (r.0 ≡ true) × (parse_number 65 r.1.mem 200 0 ≡ some (407, r.1.ptr))
fmt_number-parse_number_example =
    fmt_number-parse_number 64 407 room (omega arith) (omega arith) (omega arith) (omega arith)
      nothing_follows

end_is_near :
    let cur : Cursor = record {
      fmt = 100;
      arg = 0;
      out = record { mem = at_100 a_is; ptr = 200; end = end_of 200 3 };
    } in
    let o = (run 9 9 (λ i. 42) cur).1 in (o.ptr < 2 ^ 64) × (o.ptr ≤ 200 + 2 ^ 31)
unfolding run turn convert parse_spec parse_flags parse_number parse_int parse_width parse_precision
    parse_qualifier conversion retrieve fmt_number tmp_digits put_front put_prefix put_digits
    put_behind put_many put
end_is_near = omega arith

vsnprintf-frame_example : (vsnprintf 9 9 (at_100 a_is) 200 3 100 (λ i. 42)).2 203 ≡ 0
vsnprintf-frame_example =
    vsnprintf-frame 9 9 (at_100 a_is) 200 3 100 (λ i. 42) 203 (omega arith) (inr (omega arith))
      end_is_near
