-- ===== src/Printf/Frame.antt =====
-- Formatted output writes nothing outside its buffer, at no moment of a run.
use Prim.Native.Nat.{bit_or}
use mjos.Base.{
  ℕ, zero, suc, ◌+◌, ◌-◌, ◌%◌, ◌^◌, ◌<◌, ◌≤◌, ◌≡◌, ◌∙◌, ◌⊎◌, inl, inr, ◌==◌, ltb, ltb→lt,
  if◌then◌else◌, Bool, true, false, Bool-cases, ◌&&◌, ◌||◌, Option, none, some, List, [], ◌∷◌,
  arith, length,
}
use mjos.Base.Int.{ℤ, pos, negsuc, excess, minus, ◌-ℤ◌}
use mjos.CString.{Mem, memcpy}
use mjos.CString.Copy.{store-ne, memcpy-frame}
use mjos.Printf.{
  Out, Flags, put, put_many, place_string, with_length, cut_length, copy_length, offset_of, int_of,
}
use mjos.Printf.Format.{fmt_char}
use mjos.Printf.Number.{
  put_prefix, put_digits, put_front, put_behind, fmt_number, tmp_digits, sign_char, width_behind,
  reverse,
}

-- From a memory `m` and a buffer from `lo` to `hi`: the output has changed nothing outside it, unless the
-- write position has gone beyond the address space, or by more than 2 ^ 31 beyond `lo`.
pub record IsWithin (m : Mem) (lo hi : ℕ) (o : Out) : Type 0 where
  pub start : lo ≤ o.ptr
  pub last : o.end ≡ hi
  pub bounds : (lo ≤ hi) × (hi < 2 ^ 64)
  pub same : o.ptr < 2 ^ 64 → o.ptr ≤ lo + 2 ^ 31 → (a : ℕ) → (a < lo) ⊎ (hi ≤ a) → o.mem a ≡ m a

-- The copy of a string ends at the end of the buffer.
copy_length-room :
    (slen : ℤ) (ptr end : ℕ)
    → ptr < 2 ^ 64
    → end < 2 ^ 64
    → ptr ≤ end + 2 ^ 31
    → copy_length slen ((end + 2 ^ 64 - ptr % 2 ^ 64) % 2 ^ 64) ≤ end - ptr
unfolding copy_length
copy_length-room (pos n) ptr end f g h = ground arith
copy_length-room (negsuc n) ptr end f g h = ground arith

module _ (m : Mem) (lo hi : ℕ) where
  pub put-IsWithin : (c : ℕ) (o : Out) → IsWithin m lo hi o → IsWithin m lo hi (put c o)
  unfolding put
  put-IsWithin c o w =
      let start = w.start in
      let last = w.last in
      record {
        start = omega arith;
        last = w.last;
        bounds = w.bounds;
        same = λ f n a out. elim (Bool-cases (ltb (o.ptr % 2 ^ 64) o.end)) [
          | inl t ↦
              let room = ltb→lt (o.ptr % 2 ^ 64) o.end t in
              rw t (
                store-ne o.mem (o.ptr % 2 ^ 64) c a (omega arith)
                ∙ w.same (omega arith) (omega arith) a out)
          | inr t ↦ rw t (w.same (omega arith) (omega arith) a out)
        ];
      }

  pub put_many-IsWithin :
      (n c : ℕ) (o : Out) → IsWithin m lo hi o → IsWithin m lo hi (put_many n c o)
  unfolding put_many
  put_many-IsWithin zero c o w = w
  put_many-IsWithin (suc n) c o w = put_many-IsWithin n c (put c o) (put-IsWithin c o w)

  choose :
      (b : Bool) (o o' : Out)
      → IsWithin m lo hi o
      → IsWithin m lo hi o'
      → IsWithin m lo hi (if b then o else o')
  choose true o o' w w' = w
  choose false o o' w w' = w'

  pub skip-IsWithin :
      (n : ℕ) (o : Out) → IsWithin m lo hi o → IsWithin m lo hi (record o { ptr = o.ptr + n })
  skip-IsWithin n o w =
      let start = w.start in
      record {
        start = omega arith;
        last = w.last;
        bounds = w.bounds;
        same = λ f g. w.same (omega arith) (omega arith);
      }

  pub copy-IsWithin :
      (str : ℕ) (slen : ℤ) (o : Out)
      → IsWithin m lo hi o
      → let at = o.ptr % 2 ^ 64 in
        IsWithin m lo hi (record o {
          mem = memcpy o.mem at str (copy_length slen ((o.end + 2 ^ 64 - at) % 2 ^ 64));
          ptr = o.ptr + offset_of slen;
        })
  copy-IsWithin str slen o w =
      let start = w.start in
      let last = w.last in
      record {
        start = omega arith;
        last = w.last;
        bounds = w.bounds;
        same = λ f g a out.
            let at = o.ptr % 2 ^ 64 in
            let room = (o.end + 2 ^ 64 - at) % 2 ^ 64 in
            let fits =
              copy_length-room slen o.ptr o.end (omega arith) (omega (arith, w.bounds))
                (omega (arith, w.bounds)) in
            memcpy-frame o.mem at str (copy_length slen room) a (omega (arith, fits))
            ∙ w.same (omega arith) (omega arith) a out;
      }

  pub place_string-IsWithin :
      (str : ℕ) (flags : Flags) (width slen : ℤ) (o : Out)
      → IsWithin m lo hi o
      → IsWithin m lo hi (place_string str flags width slen o)
  unfolding place_string
  place_string-IsWithin str flags width slen o w =
      let front = (if flags.left then o else put_many (excess (width -ℤ slen) 0) 32 o) in
      let at = front.ptr % 2 ^ 64 in
      let copied : Out = record front {
        mem = memcpy front.mem at str (copy_length slen ((front.end + 2 ^ 64 - at) % 2 ^ 64));
        ptr = front.ptr + offset_of slen;
      } in
      let done = copy-IsWithin str slen front (
        choose flags.left o (put_many (excess (width -ℤ slen) 0) 32 o) w
          (put_many-IsWithin (excess (width -ℤ slen) 0) 32 o w)) in
      choose flags.left (put_many (excess (width -ℤ slen) 0) 32 copied) copied
        (put_many-IsWithin (excess (width -ℤ slen) 0) 32 copied done) done

  pub with_length-IsWithin :
      (str : ℕ) (flags : Flags) (width precision : ℤ) (o : Out) (found : Option ℕ)
      → IsWithin m lo hi o
      → IsWithin m lo hi (with_length str flags width precision o found).1
  with_length-IsWithin str flags width precision o none w = w
  with_length-IsWithin str flags width precision o (some n) w =
      place_string-IsWithin str flags width (cut_length precision (int_of n)) o w

  pub put_prefix-IsWithin :
      (flags : Flags) (base sign : ℕ) (o : Out)
      → IsWithin m lo hi o
      → IsWithin m lo hi (put_prefix flags base sign o)
  unfolding put_prefix
  put_prefix-IsWithin flags base sign o w =
      let signed = (if sign == 0 then o else put sign o) in
      let start = choose (sign == 0) o (put sign o) w (put-IsWithin sign o w) in
      let x = (if flags.lower then bit_or 88 0x20 else 88) in
      choose (flags.prefix && (base == 16)) (put x (put 48 signed)) signed
        (put-IsWithin x (put 48 signed) (put-IsWithin 48 signed start)) start

  pub put_front-IsWithin :
      (flags : Flags) (base sign : ℕ) (width precision : ℤ) (i : ℕ) (o : Out)
      → IsWithin m lo hi o
      → IsWithin m lo hi (put_front flags base sign width precision i o)
  unfolding put_front
  put_front-IsWithin flags base sign width precision i o w =
      let outer = (if flags.zero_pad || flags.left then o else put_many (excess width 1) 32 o) in
      let signed = put_prefix flags base sign outer in
      let pad = (if flags.zero_pad then 48 else 32) in
      let rounds = (if flags.zero_pad then excess width 0 else 0) in
      let inner = (if flags.left then signed else put_many rounds pad signed) in
      let first =
        choose (flags.zero_pad || flags.left) o (put_many (excess width 1) 32 o) w
          (put_many-IsWithin (excess width 1) 32 o w) in
      let second = put_prefix-IsWithin flags base sign outer first in
      let third =
        choose flags.left signed (put_many rounds pad signed) second
          (put_many-IsWithin rounds pad signed second) in
      put_many-IsWithin (excess precision i) 48 inner third

  pub put_digits-IsWithin :
      (fuel : ℕ) (ds : List ℕ) (o : Out)
      → IsWithin m lo hi o
      → IsWithin m lo hi (put_digits fuel ds o).1
  unfolding put_digits
  put_digits-IsWithin fuel [] o w = w
  put_digits-IsWithin zero (c ∷ ds) o w = w
  put_digits-IsWithin (suc fuel) (c ∷ ds) o w =
      put_digits-IsWithin fuel (if ltb (o.ptr % 2 ^ 64) o.end then ds else c ∷ ds)
        (if ltb (o.ptr % 2 ^ 64) o.end then put c o else record o { ptr = o.ptr + 1 })
        (choose (ltb (o.ptr % 2 ^ 64) o.end) (put c o) (record o { ptr = o.ptr + 1 })
          (put-IsWithin c o w) (skip-IsWithin 1 o w))

  pub put_behind-IsWithin :
      (flags : Flags) (width : ℤ) (r : Bool × Out)
      → IsWithin m lo hi r.1
      → IsWithin m lo hi (put_behind flags width r).1
  unfolding put_behind
  put_behind-IsWithin flags width (returned, o) w =
      choose (returned && flags.left) (put_many (excess width 0) 32 o) o
        (put_many-IsWithin (excess width 0) 32 o w) w

  pub fmt_number-IsWithin :
      (fuel num base : ℕ) (flags : Flags) (width precision : ℤ) (o : Out)
      → IsWithin m lo hi o
      → IsWithin m lo hi (fmt_number fuel num base flags width precision o).1
  unfolding fmt_number
  fmt_number-IsWithin fuel num base flags width precision o w =
      let ds = tmp_digits 64 num base flags.lower in
      let i = length ds in
      let p = minus precision i in
      let v = minus (minus (width_behind flags num base width) i) (excess p 0) in
      let front = put_front flags base (sign_char flags num) v p i o in
      put_behind-IsWithin flags v (put_digits fuel (reverse ds) front) (
        put_digits-IsWithin fuel (reverse ds) front
          (put_front-IsWithin flags base (sign_char flags num) v p i o w))

  pub fmt_char-IsWithin :
      (c : ℕ) (flags : Flags) (width : ℤ) (o : Out)
      → IsWithin m lo hi o
      → IsWithin m lo hi (fmt_char c flags width o)
  unfolding fmt_char
  fmt_char-IsWithin c flags width o w =
      let front = (if flags.left then o else put_many (excess width 1) 32 o) in
      let done = put (c % 256) front in
      let first =
        choose flags.left o (put_many (excess width 1) 32 o) w
          (put_many-IsWithin (excess width 1) 32 o w) in
      let second = put-IsWithin (c % 256) front first in
      choose flags.left (put_many (excess width 1) 32 done) done
        (put_many-IsWithin (excess width 1) 32 done second) second
