-- ===== src/Printf/Safety.antt =====
-- `vsnprintf` writes nothing outside its buffer, at no moment of a run.
use mjos.Base.{
  ℕ, zero, suc, ◌+◌, ◌-◌, ◌%◌, ◌^◌, ◌<◌, ◌≤◌, ◌≡◌, refl, ◌∙◌, ◌⊎◌, inl, inr, ◌==◌, ltb, leb, ltb→lt,
  leb→le, Bool, true, false, Bool-cases, Option, none, some, arith,
}
use mjos.CString.{Mem, strlen}
use mjos.CString.Copy.{store-ne, Outside}
use mjos.Printf.{Out, fmt_string}
use mjos.Printf.Format.{
  Cursor, Turn, next, stop, stuck, printed, convert, convert_spec, turn, after_turn, run, terminate,
  end_of, vsnprintf,
}
use mjos.Printf.Spec.{
  Spec, Conversion, percent, char, string, unknown, number, conversion, retrieve, parse_spec, fresh,
}
use mjos.Printf.Frame.{
  IsWithin, put-IsWithin, with_length-IsWithin, fmt_number-IsWithin, fmt_char-IsWithin,
}

module _ (m : Mem) (lo hi : ℕ) where
  -- the state at the end of a round of the loop
  abbrev TurnWithin : Turn → Type 0
  TurnWithin (next cur) = IsWithin m lo hi cur.out
  TurnWithin (stop o) = IsWithin m lo hi o
  TurnWithin (stuck o) = IsWithin m lo hi o

  printed-TurnWithin :
      (fmt arg : ℕ) (r : Bool × Out) → IsWithin m lo hi r.1 → TurnWithin (printed fmt arg r)
  printed-TurnWithin fmt arg (true, o) w = w
  printed-TurnWithin fmt arg (false, o) w = w

  convert-TurnWithin :
      (fuel : ℕ) (args : ℕ → ℕ) (s : Spec) (o : Out) (c : Conversion)
      → IsWithin m lo hi o
      → TurnWithin (convert fuel args s o c)
  unfolding convert fmt_string
  convert-TurnWithin fuel args s o percent w = put-IsWithin m lo hi 37 o w
  convert-TurnWithin fuel args s o char w =
      fmt_char-IsWithin m lo hi (args s.arg) s.flags s.width o w
  convert-TurnWithin fuel args s o string w = printed-TurnWithin (s.fmt + 1) (s.arg + 1) _ (
      with_length-IsWithin m lo hi (args s.arg) s.flags s.width s.precision o
        (strlen fuel o.mem (args s.arg)) w)
  convert-TurnWithin fuel args s o unknown w = w
  convert-TurnWithin fuel args s o (number base flags q) w =
      printed-TurnWithin (s.fmt + 1) (s.arg + 1) _ (
        fmt_number-IsWithin m lo hi fuel (retrieve q flags.sign (args s.arg)) base flags s.width
          s.precision o w)

  convert_spec-TurnWithin :
      (fuel : ℕ) (args : ℕ → ℕ) (o : Out) (s : Option Spec)
      → IsWithin m lo hi o
      → TurnWithin (convert_spec fuel args o s)
  convert_spec-TurnWithin fuel args o none w = w
  convert_spec-TurnWithin fuel args o (some s) w =
      convert-TurnWithin fuel args s o (conversion (o.mem s.fmt) s) w

  turn-TurnWithin :
      (fuel : ℕ) (args : ℕ → ℕ) (cur : Cursor)
      → IsWithin m lo hi cur.out
      → TurnWithin (turn fuel args cur)
  unfolding turn
  turn-TurnWithin fuel args cur w =
      let c = cur.out.mem cur.fmt in
      let converted =
        convert_spec-TurnWithin fuel args cur.out
          (parse_spec fuel cur.out.mem args (fresh cur.fmt cur.arg)) w in
      let copied = put-IsWithin m lo hi c cur.out w in
      elim (Bool-cases (c == 0)) [
        | inl e ↦ rw e w
        | inr e ↦ elim (Bool-cases (c == 37)) [
          | inl t ↦ rw (e, t) converted
          | inr t ↦ rw (e, t) copied
        ]
      ]

  pick-IsWithin :
      (fuel inner : ℕ) (args : ℕ → ℕ) (t : Turn)
      → ((cur : Cursor) → IsWithin m lo hi cur.out → IsWithin m lo hi (run fuel inner args cur).1)
      → TurnWithin t
      → IsWithin m lo hi (after_turn (run fuel inner args) t).1
  pick-IsWithin fuel inner args (next cur) rest w = rest cur w
  pick-IsWithin fuel inner args (stop o) rest w = w
  pick-IsWithin fuel inner args (stuck o) rest w = w

  run-IsWithin :
      (fuel inner : ℕ) (args : ℕ → ℕ) (cur : Cursor)
      → IsWithin m lo hi cur.out
      → IsWithin m lo hi (run fuel inner args cur).1
  unfolding run
  run-IsWithin zero inner args cur w = w
  run-IsWithin (suc fuel) inner args cur w =
      pick-IsWithin fuel inner args (turn inner args cur) (run-IsWithin fuel inner args)
        (turn-TurnWithin inner args cur w)

end_of-bounds :
    (buf size : ℕ)
    → buf < 2 ^ 64
    → (buf ≤ end_of buf size) × (end_of buf size ≤ buf + size) × (end_of buf size < 2 ^ 64)
end_of-bounds buf size h = elim (Bool-cases (leb (2 ^ 64) (buf + size))) [
  | inl e ↦
      rw e (let big = leb→le (2 ^ 64) (buf + size) e in (omega arith, omega arith, omega arith))
  | inr e ↦ rw e (omega arith, omega arith, ground (arith, e))
]

terminate-same :
    (m : Mem) (buf hi a : ℕ) (o : Out)
    → buf ≤ hi
    → (a < buf) ⊎ (hi ≤ a)
    → o.ptr < 2 ^ 64
    → o.ptr ≤ buf + 2 ^ 31
    → IsWithin m buf hi o
    → (terminate (hi - buf) o).mem a ≡ m a
unfolding terminate
terminate-same m buf hi a o h out f g w =
    let start = w.start in
    let last = w.last in
    elim (Bool-cases (hi - buf == 0)) [
      | inl e ↦ rw e (w.same f g a out)
      | inr e ↦
          let room : buf < hi = ground (arith, e) in
          elim (Bool-cases (ltb (o.ptr % 2 ^ 64) o.end)) [
            | inl t ↦
                let inside = ltb→lt (o.ptr % 2 ^ 64) o.end t in
                rw (e, t) (store-ne o.mem (o.ptr % 2 ^ 64) 0 a (omega arith) ∙ w.same f g a out)
            | inr t ↦ rw (e, t) (store-ne o.mem (o.end - 1) 0 a (omega arith) ∙ w.same f g a out)
          ]
    ]

-- Whatever the format and the arguments are, and however far a run has come, `vsnprintf` has changed
-- no byte outside `size` bytes from `buf` on, if its write position has neither passed the end of the
-- 64-bit address space nor moved by more than 2 ^ 31 from `buf`. (A string of 2 ^ 31 bytes or more, whose
-- length is negative as an `int`, moves it past that end.)
pub vsnprintf-frame :
    (fuel inner : ℕ) (m : Mem) (buf size fmt : ℕ) (args : ℕ → ℕ) (a : ℕ)
    → buf < 2 ^ 64
    → Outside a buf size
    → (let cur : Cursor = record {
      fmt = fmt;
      arg = 0;
      out = record { mem = m; ptr = buf; end = end_of buf size };
    } in
        let o = (run fuel inner args cur).1 in (o.ptr < 2 ^ 64) × (o.ptr ≤ buf + 2 ^ 31))
    → (vsnprintf fuel inner m buf size fmt args).2 a ≡ m a
unfolding vsnprintf
vsnprintf-frame fuel inner m buf size fmt args a h out (f, g) =
    let hi = end_of buf size in
    let cur : Cursor = record {
      fmt = fmt;
      arg = 0;
      out = record { mem = m; ptr = buf; end = hi };
    } in
    let bounds = end_of-bounds buf size h in
    let inside = run-IsWithin m buf hi fuel inner args cur (record {
      start = omega arith;
      last = refl;
      bounds = (bounds.0, bounds.2);
      same = λ f g b o. refl;
    }) in
    let beyond : (a < buf) ⊎ (hi ≤ a) = omega arith in
    elim (Bool-cases (run fuel inner args cur).0) [
      | inl e ↦
          rw e (terminate-same m buf hi a (run fuel inner args cur).1 bounds.0 beyond f g inside)
      | inr e ↦ rw e (inside.same f g a beyond)
    ]
