-- ===== src/CString/Text.antt =====
-- `strlen` and `strchr`, against the text that stands in memory.
use mjos.Base.{
  ℕ, zero, suc, ◌+◌, ◌<◌, ◌≡◌, ap, ◌≢◌, List, [], ◌∷◌, Option, none, some, arith, length, ◌==◌,
  if◌then◌else◌,
}
use mjos.CString.{Mem, strlen_from, strlen, strchr}

-- At `p` stand the bytes of `s`, none of them zero, and then a zero.
abbrev pub IsText : Mem → ℕ → List ℕ → Type 0
IsText m p [] = m p ≡ 0
IsText m p (c ∷ s) = (m p ≡ c) × (c ≢ 0) × IsText m (p + 1) s

-- the place of the first `c` in a text
abbrev pub index_of : ℕ → List ℕ → Option ℕ
index_of c [] = none
index_of c (x ∷ s) =
    if x == c then some 0 else elim (index_of c s) [ none ↦ none | some i ↦ some (suc i) ]

abbrev pub offset : ℕ → Option ℕ → Option ℕ
offset p none = none
offset p (some i) = some (p + i)

strlen_from-end :
    (m : Mem) (s : List ℕ) (p fuel : ℕ)
    → IsText m p s
    → length s < fuel
    → strlen_from fuel m p ≡ some (p + length s)
unfolding strlen_from
strlen_from-end m s p zero t f = absurd (omega arith)
strlen_from-end m [] p (suc fuel) t f = ground (arith, t)
strlen_from-end m (c ∷ s) p (suc fuel) t f =
    ground (arith, strlen_from-end m s (p + 1) fuel t.2 (omega arith))

-- `strlen` returns the number of bytes before the terminating zero, in one round more.
pub strlen-length :
    (m : Mem) (s : List ℕ) (p fuel : ℕ)
    → IsText m p s
    → length s < fuel
    → strlen fuel m p ≡ some (length s)
unfolding strlen
strlen-length m s p fuel t f = rw (strlen_from-end m s p fuel t f, strlen) (ap some (omega arith))

-- `strchr` returns the address of the first such byte of the text, or NULL where the text has
-- none, for an ASCII character; the terminating zero is never found.
pub strchr-index_of :
    (m : Mem) (s : List ℕ) (p fuel i : ℕ)
    → i < 128
    → IsText m p s
    → length s < fuel
    → strchr fuel m p i ≡ some (offset p (index_of i s))
unfolding strchr
strchr-index_of m s p zero i k t f = absurd (omega arith)
strchr-index_of m [] p (suc fuel) i k t f = ground (arith, t)
strchr-index_of m (c ∷ s) p (suc fuel) i k t f =
    ground (arith, strchr-index_of m s (p + 1) fuel i k t.2 (omega arith))
