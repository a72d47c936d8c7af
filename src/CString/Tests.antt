-- ===== src/CString/Tests.antt =====
-- Runs of the string and memory functions, and the theorems about them at concrete memories.
use mjos.Base.{
  zero, suc, ◌==◌, if◌then◌else◌, ℕ, ◌+◌, ◌%◌, ◌≡◌, refl, List, [], ◌∷◌, Option, none, some, arith,
}
use mjos.Base.Int.{ℤ, pos, negsuc}
use mjos.CString.{Mem, store, char_diff, strcmp, strncmp, strcpy, memmove, memset}
use mjos.CString.Text.{IsText}
use mjos.CString.Copy.{memmove-repeats}
use mjos.CString.Compare.{IsBytes, Agree, strncmp-first, strcmp-equal}

-- the bytes 0 1 2 3 0 1 2 3 and so on
abbrev cyclic : Mem
cyclic a = a % 4

abbrev one_to_three : List ℕ
one_to_three = 1 ∷ 2 ∷ 3 ∷ []

cyclic-IsBytes : IsBytes cyclic
cyclic-IsBytes a = omega arith

IsText-at_1 : IsText cyclic 1 one_to_three
IsText-at_1 =
    (refl, (λ e. omega arith), (refl, (λ e. omega arith), (refl, (λ e. omega arith), refl)))

IsText-at_6 : IsText cyclic 6 (2 ∷ 3 ∷ [])
IsText-at_6 = (refl, (λ e. omega arith), (refl, (λ e. omega arith), refl))

strcmp_less : strcmp 9 cyclic 5 6 ≡ some (negsuc 0)
unfolding strcmp char_diff
strcmp_less = refl

strncmp_after_zero : strncmp cyclic 1 5 9 ≡ pos 0
unfolding strncmp
strncmp_after_zero = refl

abbrev byte_of : ℕ → Option Mem → ℕ
byte_of a none = 0
byte_of a (some m) = m a

strcpy_moves : byte_of 21 (strcpy 9 cyclic 20 2) ≡ 3
unfolding strcpy store
strcpy_moves = refl

memset_fills : memset cyclic 8 7 3 10 ≡ 7
unfolding memset store
memset_fills = refl

memmove-repeats_example : memmove cyclic (5 + 2) 5 6 (5 + 2 + 3) ≡ 2
memmove-repeats_example = memmove-repeats cyclic 5 2 6 3 (omega arith) (omega arith)

-- The bytes 2 3 0 1 and 2 3 0 7: the same text, with another byte behind its end.
abbrev behind_end : Mem
behind_end a = if a == 57 then 7 else cyclic a

behind_end-IsBytes : IsBytes behind_end
behind_end-IsBytes a = ground arith

first_three : Agree behind_end 50 54 3
first_three zero h = refl
first_three (suc zero) h = refl
first_three (suc (suc zero)) h = refl
first_three (suc (suc (suc i))) h = absurd (omega arith)

strncmp-first_example : strncmp behind_end 50 54 4 ≡ negsuc 5
strncmp-first_example =
    strncmp-first behind_end 50 54 4 3 behind_end-IsBytes (omega arith) first_three
      (λ e. omega arith)

strcmp-equal_example :
    (z : ℤ) × (strcmp 4 cyclic 1 6 ≡ some z)
    × (z ≡ pos 0 → one_to_three ≡ 2 ∷ 3 ∷ [])
    × (one_to_three ≡ 2 ∷ 3 ∷ [] → z ≡ pos 0)
strcmp-equal_example =
    strcmp-equal cyclic one_to_three (2 ∷ 3 ∷ []) 1 6 4 cyclic-IsBytes IsText-at_1 IsText-at_6
      (omega arith)
