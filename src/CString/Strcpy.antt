-- ===== src/CString/Strcpy.antt =====
-- `strcpy`: the text it writes, and what it leaves alone.
use mjos.Base.{
  ℕ, zero, suc, ◌+◌, ◌<◌, ◌≤◌, ◌≡◌, ◌∙◌, ◌⊎◌, List, [], ◌∷◌, Option, some, none, arith, length,
}
use mjos.CString.{Mem, store, strcpy}
use mjos.CString.Text.{IsText}
use mjos.CString.Copy.{store_self, store-ne, Outside}

-- the memory after the bytes of a text and a zero are written at an address
abbrev pub write_text : Mem → ℕ → List ℕ → Mem
write_text m dst [] = store m dst 0
write_text m dst (c ∷ s) = write_text (store m dst c) (dst + 1) s

write_text-frame :
    (m : Mem) (s : List ℕ) (dst a : ℕ) → Outside a dst (suc (length s)) → write_text m dst s a ≡ m a
write_text-frame m [] dst a o = store-ne m dst 0 a (omega arith)
write_text-frame m (c ∷ s) dst a o =
    write_text-frame (store m dst c) s (dst + 1) a (omega arith) ∙ store-ne m dst c a (omega arith)

-- the bytes of a text are none of them zero
IsText-agree :
    (m m' : Mem) (s : List ℕ) (p : ℕ)
    → ((a : ℕ) → p ≤ a → a < p + suc (length s) → m' a ≡ m a)
    → IsText m p s
    → IsText m' p s
IsText-agree m m' [] p same t = same p (omega arith) (omega arith) ∙ t
IsText-agree m m' (c ∷ s) p same t = (
  same p (omega arith) (omega arith) ∙ t.0,
  t.1,
  IsText-agree m m' s (p + 1) (λ a h k. same a (omega arith) (omega arith)) t.2,
)

write_text-IsText :
    (m n : Mem) (s : List ℕ) (dst src : ℕ) → IsText n src s → IsText (write_text m dst s) dst s
write_text-IsText m n [] dst src t = store_self m dst 0
write_text-IsText m n (c ∷ s) dst src t = (
  write_text-frame (store m dst c) s (dst + 1) dst (omega arith) ∙ store_self m dst c,
  t.1,
  write_text-IsText (store m dst c) n s (dst + 1) (src + 1) t.2,
)

strcpy-write :
    (m : Mem) (s : List ℕ) (dst src fuel : ℕ)
    → (dst + length s < src) ⊎ (src + length s < dst)
    → IsText m src s
    → length s < fuel
    → strcpy fuel m dst src ≡ some (write_text m dst s)
unfolding strcpy
strcpy-write m s dst src zero o t f = absurd (omega arith)
strcpy-write m [] dst src (suc fuel) o t f = ground (arith, t)
strcpy-write m (c ∷ s) dst src (suc fuel) o t f =
    let rest =
      strcpy-write (store m dst c) s (dst + 1) (src + 1) fuel (omega arith)
        (IsText-agree m (store m dst c) s (src + 1) (λ a h k. store-ne m dst c a (omega arith)) t.2)
        (omega arith) in
    let nonzero = t.1 in rw (t.0) (ground (arith, rest))

-- What a call of `strcpy` with this result did: it returned, the text stands at the target, and
-- every other byte is as it was.
abbrev pub Copied : Option Mem → Mem → ℕ → List ℕ → Type 0
Copied none m dst s = ⊥
Copied (some m') m dst s = IsText m' dst s × ((a : ℕ) → Outside a dst (suc (length s)) → m' a ≡ m a)

-- `strcpy` of a text to a target that the text does not overlap returns, in one round more than the
-- text is long, with the text at the target and no byte outside it changed.
pub strcpy-IsText :
    (m : Mem) (s : List ℕ) (dst src fuel : ℕ)
    → (dst + length s < src) ⊎ (src + length s < dst)
    → IsText m src s
    → length s < fuel
    → Copied (strcpy fuel m dst src) m dst s
strcpy-IsText m s dst src fuel o t f =
    rw (strcpy-write m s dst src fuel o t f)
      (write_text-IsText m m s dst src t, write_text-frame m s dst)
