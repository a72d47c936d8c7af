-- ===== src/CString.antt =====
-- The string and memory functions of the kernel's C library: kernel/libc/string/ and
-- kernel/libc/stdlib/memmove.c. Memory is a function from addresses to bytes, and a pointer is an
-- address. A loop that runs to a terminating zero takes fuel, `none` when it runs out; one that
-- counts down recurs on its counter. `char` is signed, as on x86.
pub mod Text
pub mod Copy
pub mod Strcpy
pub mod Compare
pub mod Strtol
mod Tests
use mjos.Base.{
  ℕ, zero, suc, ◌+◌, ◌-◌, ◌==◌, ltb, if◌then◌else◌, not, ◌&&◌, Bool, true, false, Option, none,
  some,
}
use mjos.Base.Int.{ℤ, pos, negsuc, sub_ℕ}

abbrev pub Mem : Type 0
Mem = ℕ → ℕ

unfoldable pub store : Mem → ℕ → ℕ → Mem
store m p v a = if a == p then v else m a

-- `a - b` for two bytes read as `char`: the byte b stands for b - 256 from 128 on.
unfoldable pub char_diff : ℕ → ℕ → ℤ
char_diff a b = sub_ℕ (a + (if ltb b 128 then 0 else 256)) (b + (if ltb a 128 then 0 else 256))

-- the loop of `strlen`
unfoldable pub strlen_from : ℕ → Mem → ℕ → Option ℕ
strlen_from zero m a = none
strlen_from (suc fuel) m a =
    let rest = strlen_from fuel m (a + 1) in if m a == 0 then some a else rest

-- `strlen`
unfoldable pub strlen : ℕ → Mem → ℕ → Option ℕ
unfolding strlen_from
strlen fuel m s = elim (strlen_from fuel m s) [ none ↦ none | some a ↦ some (a - s) ]

-- `strncmp`
unfoldable pub strncmp : Mem → ℕ → ℕ → ℕ → ℤ
unfolding char_diff
strncmp m s1 s2 zero = pos 0
strncmp m s1 s2 (suc n) =
    let rest = strncmp m (s1 + 1) (s2 + 1) n in
    if m s1 == m s2 then rest else char_diff (m s1) (m s2)

-- `strcmp`
unfoldable pub strcmp : ℕ → Mem → ℕ → ℕ → Option ℤ
unfolding char_diff
strcmp zero m s1 s2 = none
strcmp (suc fuel) m s1 s2 =
    let rest = strcmp fuel m (s1 + 1) (s2 + 1) in
    if not (m s1 == 0) && (m s1 == m s2) then rest else some (char_diff (m s1) (m s2))

-- `*s == i` for a byte and an `int` from 0 on: a byte from 128 on is a negative `char`.
unfoldable pub is_char : ℕ → ℕ → Bool
is_char b i = ltb b 128 && (b == i)

-- `strchr` for an `i` from 0 on; the inner `none` is NULL.
unfoldable pub strchr : ℕ → Mem → ℕ → ℕ → Option (Option ℕ)
unfolding is_char
strchr zero m s i = none
strchr (suc fuel) m s i =
    let rest = strchr fuel m (s + 1) i in
    if m s == 0 then some none else if is_char (m s) i then some (some s) else rest

-- `strcpy`
unfoldable pub strcpy : ℕ → Mem → ℕ → ℕ → Option Mem
unfolding store
strcpy zero m dst src = none
strcpy (suc fuel) m dst src =
    let rest = strcpy fuel (store m dst (m src)) (dst + 1) (src + 1) in
    if m src == 0 then some (store m dst 0) else rest

-- `memcpy`
unfoldable pub memcpy : Mem → ℕ → ℕ → ℕ → Mem
unfolding store
memcpy m dst src zero = m
memcpy m dst src (suc size) = memcpy (store m dst (m src)) (dst + 1) (src + 1) size

-- `memmove`
unfoldable pub memmove : Mem → ℕ → ℕ → ℕ → Mem
memmove m dst src size = memcpy m dst src size

-- `memset`
unfoldable pub memset : Mem → ℕ → ℕ → ℕ → Mem
unfolding store
memset m ptr value zero = m
memset m ptr value (suc num) = memset (store m ptr value) (ptr + 1) value num

-- `memcmp`
unfoldable pub memcmp : Mem → ℕ → ℕ → ℕ → ℤ
unfolding char_diff
memcmp m s1 s2 zero = pos 0
memcmp m s1 s2 (suc n) =
    let rest = memcmp m (s1 + 1) (s2 + 1) n in
    if m s1 == m s2 then rest else char_diff (m s1) (m s2)
