-- ===== src/CString/Copy.antt =====
-- `memcpy`, `memmove`, `memset` and `strcpy`: what they write, and what they leave alone.
use native.Mathlib.Nat.{mod-lt, mod-eq_of_lt, mod_self, suc-mod}
use mjos.Base.{ℕ, zero, suc, ◌+◌, ◌%◌, ◌<◌, ◌≤◌, ◌≡◌, refl, ap, ◌∙◌, ◌≢◌, ◌⊎◌, inl, inr, arith}
use mjos.CString.{Mem, store, memcpy, memmove}

pub store_self : (m : Mem) (p v : ℕ) → store m p v p ≡ v
unfolding store
store_self m p v = ground arith

pub store-ne : (m : Mem) (p v a : ℕ) → a ≢ p → store m p v a ≡ m a
unfolding store
store-ne m p v a n = ground arith

-- An address outside `n` bytes from `p` on.
abbrev pub Outside : ℕ → ℕ → ℕ → Type 0
Outside a p n = (a < p) ⊎ (p + n ≤ a)

-- `memcpy` writes only to its target.
pub memcpy-frame : (m : Mem) (dst src n a : ℕ) → Outside a dst n → memcpy m dst src n a ≡ m a
unfolding memcpy
memcpy-frame m dst src zero a o = refl
memcpy-frame m dst src (suc n) a o =
    memcpy-frame (store m dst (m src)) (dst + 1) (src + 1) n a (omega arith)
    ∙ store-ne m dst (m src) a (omega arith)

-- `memcpy` copies the source as it was, unless the target starts inside it behind its first byte.
pub memcpy-copies :
    (m : Mem) (dst src n i : ℕ)
    → (dst ≤ src) ⊎ (src + n ≤ dst)
    → i < n
    → memcpy m dst src n (dst + i) ≡ m (src + i)
unfolding memcpy
memcpy-copies m dst src zero i o h = absurd (omega arith)
memcpy-copies m dst src (suc n) zero o h =
    let at_dst : dst + 0 ≡ dst = omega arith in
    let at_src : src + 0 ≡ src = omega arith in
    rw (at_dst, at_src)
      (memcpy-frame (store m dst (m src)) (dst + 1) (src + 1) n dst (omega arith)
        ∙ store_self m dst (m src))
memcpy-copies m dst src (suc n) (suc i) o h =
    let at_dst : dst + suc i ≡ dst + 1 + i = omega arith in
    let at_src : src + 1 + i ≡ src + suc i = omega arith in
    rw at_dst (
      memcpy-copies (store m dst (m src)) (dst + 1) (src + 1) n i (omega arith) (omega arith)
      ∙ store-ne m dst (m src) (src + 1 + i) (omega arith)
      ∙ ap m at_src)

-- `i + 1` modulo `d`, from `i` modulo `d`.
mod-step :
    (i d : ℕ)
    → 0 < d
    → ((suc (i % d) ≡ d) × (suc i % d ≡ 0)) ⊎ ((suc (i % d) < d) × (suc i % d ≡ suc (i % d)))
mod-step i d h =
    let bound : i % d < d = mod-lt i h in
    let split : (suc (i % d) ≡ d) ⊎ (suc (i % d) < d) = omega arith in
    elim split [
      | inl last ↦ inl (last, suc-mod i d ∙ ap (λ k. k % d) last ∙ mod_self d)
      | inr inside ↦ inr (inside, suc-mod i d ∙ mod-eq_of_lt inside)
    ]

-- the first byte that a copy writes stays
memcpy-head : (m : Mem) (dst src n : ℕ) → memcpy m dst src (suc n) dst ≡ m src
unfolding memcpy
memcpy-head m dst src n =
    memcpy-frame (store m dst (m src)) (dst + 1) (src + 1) n dst (omega arith)
    ∙ store_self m dst (m src)

repeats-step :
    (m : Mem) (src d i : ℕ)
    → 0 < d
    → store m (src + d) (m src) (src + 1 + i % d) ≡ m (src + suc i % d)
repeats-step m src d i h = elim (mod-step i d h) [
  | inl (last, wrap) ↦
      let at_dst : src + 1 + i % d ≡ src + d = omega arith in
      let at_src : src ≡ src + suc i % d = omega arith in
      ap (store m (src + d) (m src)) at_dst ∙ store_self m (src + d) (m src) ∙ ap m at_src
  | inr (inside, next) ↦
      let at_src : src + 1 + i % d ≡ src + suc i % d = omega arith in
      store-ne m (src + d) (m src) (src + 1 + i % d) (omega arith) ∙ ap m at_src
]

-- Where the target starts `d` bytes behind the start of the source, the copy repeats the first `d`
-- bytes: `memmove`, which is `memcpy` here, does not copy such an overlapping source as it was.
pub memmove-repeats :
    (m : Mem) (src d n i : ℕ)
    → 0 < d
    → i < n
    → memmove m (src + d) src n (src + d + i) ≡ m (src + i % d)
unfolding memmove memcpy
memmove-repeats m src d zero i p h = absurd (omega arith)
memmove-repeats m src d (suc n) zero p h =
    let at_dst : src + d + 0 ≡ src + d = omega arith in
    let at_src : src ≡ src + 0 % d = omega (arith, mod-eq_of_lt p) in
    ap (memcpy m (src + d) src (suc n)) at_dst ∙ memcpy-head m (src + d) src n ∙ ap m at_src
memmove-repeats m src d (suc n) (suc i) p h =
    let at_dst : src + d + suc i ≡ src + 1 + d + i = omega arith in
    let start : src + d + 1 ≡ src + 1 + d = omega arith in
    rw (at_dst, start)
      (memmove-repeats (store m (src + d) (m src)) (src + 1) d n i p (omega arith)
        ∙ repeats-step m src d i p)
