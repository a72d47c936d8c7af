-- ===== src/Printf.antt =====
-- Formatted output, kernel/misc/vsnprintf.c (kernel/libc/stdio/vsnprintf.c is the same text). The
-- buffer and the format stand in one memory. The state has the write position `ptr` and `end`, and a
-- loop that counts an `int` down is written with its number of rounds. A run is given fuel; with the
-- Bool of its result it says whether it returned, and the state is the one that it has reached.
pub mod Number
pub mod Spec
pub mod Format
pub mod Frame
pub mod Safety
pub mod Digits
pub mod Decimal
mod Tests
use Prim.Native.Nat.{bit_or}
use mjos.Base.{
  ℕ, zero, suc, ◌+◌, ◌-◌, ◌*◌, ◌/◌, ◌%◌, ◌^◌, min, ◌==◌, ltb, leb, not, ◌&&◌, ◌||◌, if◌then◌else◌,
  Bool, true, false, Option, none, some, List, [], ◌∷◌,
}
use mjos.Base.Int.{ℤ, pos, negsuc, dec, minus, excess, ◌-ℤ◌, le_ℤ}
use mjos.CString.{Mem, store, strlen, memcpy}

-- The locals `buf` (or `ptr`) and `end`, and the memory. The write position counts on where the pointer,
-- `ptr % 2 ^ 64`, wraps around.
pub record Out : Type 0 where
  pub mem : Mem
  pub ptr : ℕ
  pub end : ℕ

-- `if (buf < end) *buf = c; ++buf`
unfoldable pub put : ℕ → Out → Out
unfolding store
put c o =
    let at = o.ptr % 2 ^ 64 in
    record o { mem = if ltb at o.end then store o.mem at c else o.mem; ptr = o.ptr + 1 }

-- `n` rounds of it
unfoldable pub put_many : ℕ → ℕ → Out → Out
unfolding put
put_many zero c o = o
put_many (suc n) c o = put_many n c (put c o)

-- The bits of `flags`.
pub record Flags : Type 0 where
  pub left : Bool
  pub plus : Bool
  pub space : Bool
  pub prefix : Bool
  pub zero_pad : Bool
  pub lower : Bool
  pub sign : Bool

-- The part of `fmt_string` that cuts the length to the precision.
abbrev pub cut_length : ℤ → ℤ → ℤ
cut_length (pos zero) slen = slen
cut_length (pos (suc p)) slen = if le_ℤ slen (pos (suc p)) then slen else pos (suc p)
cut_length (negsuc p) slen = slen

-- The low 32 bits as an `int`, and 64 bits as an `_i64`.
abbrev pub int_of : ℕ → ℤ
int_of x = let w = x % 2 ^ 32 in if ltb w (2 ^ 31) then pos w else negsuc (2 ^ 32 - w - 1)

abbrev pub i64_of : ℕ → ℤ
i64_of x = if ltb x (2 ^ 63) then pos x else negsuc (2 ^ 64 - x - 1)

-- An `int` as the offset of a pointer.
abbrev pub offset_of : ℤ → ℕ
offset_of (pos n) = n
offset_of (negsuc n) = 2 ^ 64 - 1 - n

-- What `memcpy`, whose size has 16 bits, copies for an `int` that is kept only where it is above 0.
abbrev pub copied_bytes : ℕ → ℕ
copied_bytes x = let w = x % 2 ^ 32 in if ltb w (2 ^ 31) then w % 2 ^ 16 else 0

-- `MIN(slen, end - buf)` as an `int` and as a size, where the difference is `room` in 64 bits
unfoldable pub copy_length : ℤ → ℕ → ℕ
copy_length (pos n) room = copied_bytes (if le_ℤ (pos n) (i64_of room) then n else room)
copy_length (negsuc n) room = if le_ℤ (negsuc n) (i64_of room) then 0 else copied_bytes room

-- `fmt_string` behind the call of `strlen`: the padding in front, the copy, the padding behind. The
-- loop in front leaves `width` at the length at most.
unfoldable pub place_string : ℕ → Flags → ℤ → ℤ → Out → Out
unfolding put_many copy_length
place_string str flags width slen o =
    let front = (if flags.left then o else put_many (excess (width -ℤ slen) 0) 32 o) in
    let at = front.ptr % 2 ^ 64 in
    let plen = copy_length slen ((front.end + 2 ^ 64 - at) % 2 ^ 64) in
    let copied = record front {
      mem = memcpy front.mem at str plen;
      ptr = front.ptr + offset_of slen;
    } in
    if flags.left then put_many (excess (width -ℤ slen) 0) 32 copied else copied

abbrev pub with_length : ℕ → Flags → ℤ → ℤ → Out → Option ℕ → Bool × Out
with_length str flags width precision o none = (false, o)
with_length str flags width precision o (some slen) =
    (true, place_string str flags width (cut_length precision (int_of slen)) o)

-- `fmt_string`, with fuel for `strlen`
unfoldable pub fmt_string : ℕ → ℕ → Flags → ℤ → ℤ → Out → Bool × Out
unfolding place_string
fmt_string fuel str flags width precision o =
    with_length str flags width precision o (strlen fuel o.mem str)
