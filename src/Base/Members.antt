-- ===== src/Base/Members.antt =====
-- Membership of numbers in lists as a test, lists without repetition, and disjoint lists.
use mathlib.Core.Path.{◌≡◌, refl, sym, ap}
use mathlib.Core.Logic.{◌≢◌, inl, inr}
use mathlib.Core.Bool.{Bool, true, false, ◌||◌, or_assoc}
use mathlib.Core.List.{List, [], ◌∷◌, ◌++◌}
use Prim.Native.Nat.{ℕ, zero, suc, ◌≤◌, ◌<◌}
use native.Mathlib.Omega.{arith}
use mjos.Base.Tests.{◌==◌, eq-cases, Bool-cases}
use mjos.Base.Lists.{length, length-append}

abbrev pub has : ℕ → List ℕ → Bool
has a [] = false
has a (x ∷ xs) = (a == x) || has a xs

infix 40 ◌∈◌ ◌∉◌
abbrev pub ◌∈◌ : ℕ → List ℕ → Type 0
a ∈ xs = has a xs ≡ true

abbrev pub ◌∉◌ : ℕ → List ℕ → Type 0
a ∉ xs = has a xs ≡ false

abbrev pub Distinct : List ℕ → Type 0
Distinct [] = Unit {0}
Distinct (x ∷ xs) = (x ∉ xs) × Distinct xs

abbrev pub Disjoint : List ℕ → List ℕ → Type 0
Disjoint [] ys = Unit {0}
Disjoint (x ∷ xs) ys = (x ∉ ys) × Disjoint xs ys

pub has-append : (a : ℕ) (xs ys : List ℕ) → has a (xs ++ ys) ≡ (has a xs || has a ys)
has-append a [] ys = refl
has-append a (x ∷ xs) ys = rw (has-append a xs ys, or_assoc)

pub ne_of_mem : (a b : ℕ) (xs : List ℕ) → a ∈ xs → b ∉ xs → a ≢ b
ne_of_mem a b xs h k e = ground (arith, e)

pub Disjoint-not_mem : (a : ℕ) (xs ys : List ℕ) → Disjoint xs ys → a ∈ xs → a ∉ ys
Disjoint-not_mem a [] ys d h = ground arith
Disjoint-not_mem a (x ∷ xs) ys d h = ground (arith, Disjoint-not_mem a xs ys d.1)

pub Distinct-middle :
    (x : ℕ) (ys zs : List ℕ) → Distinct (ys ++ x ∷ zs) → Distinct (ys ++ zs) × (x ∉ ys ++ zs)
Distinct-middle x [] zs h = (h.1, h.0)
Distinct-middle x (y ∷ ys) zs h =
    let r = Distinct-middle x ys zs h.1 in
    (
      (ground (arith, has-append y ys zs, has-append y ys (x ∷ zs), h.0), r.0),
      ground (arith, r.1, has-append y ys (x ∷ zs), h.0),
    )

pub middle-Distinct :
    (x : ℕ) (ys zs : List ℕ) → Distinct (ys ++ zs) → x ∉ ys ++ zs → Distinct (ys ++ x ∷ zs)
middle-Distinct x [] zs h out = (out, h)
middle-Distinct x (y ∷ ys) zs h out = (
  ground (arith, has-append y ys zs, has-append y ys (x ∷ zs), h.0),
  middle-Distinct x ys zs h.1 (ground arith),
)

pub not_mem-append : (a : ℕ) (xs ys : List ℕ) → a ∉ xs ++ ys → (a ∉ xs) × (a ∉ ys)
not_mem-append a xs ys h = ground (arith, has-append a xs ys)

pub append-not_mem : (a : ℕ) (xs ys : List ℕ) → a ∉ xs → a ∉ ys → a ∉ xs ++ ys
append-not_mem a xs ys h k = ground (arith, has-append a xs ys)

pub Distinct-left : (xs ys : List ℕ) → Distinct (xs ++ ys) → Distinct xs
Distinct-left [] ys h = tt
Distinct-left (x ∷ xs) ys h = ((not_mem-append x xs ys h.0).0, Distinct-left xs ys h.1)

pub Distinct-right : (xs ys : List ℕ) → Distinct (xs ++ ys) → Distinct ys
Distinct-right [] ys h = h
Distinct-right (x ∷ xs) ys h = Distinct-right xs ys h.1

pub not_mem-cons : (a x : ℕ) (xs : List ℕ) → a ∉ x ∷ xs → (a ≢ x) × (a ∉ xs)
not_mem-cons a x xs h = (ground arith, ground arith)

-- No number is in both lists.
abbrev pub Apart : List ℕ → List ℕ → Type 0
Apart xs ys = (a : ℕ) → a ∈ xs → a ∉ ys

pub Apart-sym : (xs ys : List ℕ) → Apart xs ys → Apart ys xs
Apart-sym xs ys h a i = ground (arith, h a)

pub mem-middle : (x : ℕ) (ys zs : List ℕ) → x ∈ ys ++ x ∷ zs
mem-middle x ys zs = ground (arith, has-append x ys (x ∷ zs))

pub not_mem-drop : (a x : ℕ) (ys zs : List ℕ) → a ∉ ys ++ x ∷ zs → a ∉ ys ++ zs
not_mem-drop a x ys zs h = ground (arith, has-append a ys (x ∷ zs), has-append a ys zs)

-- A member of `fs` is none of `x` and of `os`.
pub outside : (a x : ℕ) (fs os : List ℕ) → a ∈ fs → x ∉ fs → Apart fs os → a ∉ x ∷ os
outside a x fs os i out h = ground (arith, h a, ne_of_mem a x fs i out)

pub Apart-drop : (n : ℕ) (us vs ys : List ℕ) → Apart (us ++ n ∷ vs) ys → Apart (us ++ vs) ys
Apart-drop n us vs ys h a i = ground (arith, h a, has-append a us (n ∷ vs), has-append a us vs)

pub Apart-insert :
    (n : ℕ) (us vs ys : List ℕ) → n ∉ ys → Apart (us ++ vs) ys → Apart (us ++ n ∷ vs) ys
Apart-insert n us vs ys out h a i =
    ground (arith, h a, has-append a us (n ∷ vs), has-append a us vs)

pub mem-insert : (a t : ℕ) (us vs : List ℕ) → a ∈ us ++ vs → a ∈ us ++ t ∷ vs
mem-insert a t us vs i = ground (arith, has-append a us vs, has-append a us (t ∷ vs))

pub mem-snoc : (a t : ℕ) (xs : List ℕ) → a ∈ xs ++ t ∷ [] → a ∈ t ∷ xs
mem-snoc a t xs i = ground (arith, has-append a xs (t ∷ []))

pub mem-split : (a : ℕ) (xs : List ℕ) → a ∈ xs → (ys : List ℕ) × (zs : List ℕ) × (xs ≡ ys ++ a ∷ zs)
mem-split a [] i = absurd (ground (arith, i))
mem-split a (x ∷ xs) i = elim (eq-cases a x) [
  | inl e ↦ ([], xs, ap (λ b. b ∷ xs) (sym e))
  | inr n ↦
      let (ys, zs, e) = mem-split a xs (ground (arith, i, n)) in (x ∷ ys, zs, ap (λ b. x ∷ b) e)
]

-- Distinct numbers below `n` are at most `n` many.
pub Distinct-length :
    (n : ℕ) (xs : List ℕ) → Distinct xs → ((a : ℕ) → a ∈ xs → a < n) → length xs ≤ n
Distinct-length zero [] d known = omega arith
Distinct-length zero (x ∷ xs) d known =
    let small : x < 0 = known x (ground arith) in absurd (omega arith)
Distinct-length (suc n) xs d known = elim (Bool-cases (has n xs)) [
  | inl i ↦
      let (ys, zs, e) = mem-split n xs i in
      let parts = Distinct-middle n ys zs (rw (sym e) d) in
      let inside : (a : ℕ) → a ∈ ys ++ zs → a ∈ xs = λ a h. rw e (mem-insert a n ys zs h) in
      let rest = Distinct-length n (ys ++ zs) parts.0 (λ a h.
        let small = known a (inside a h) in
        let other = ne_of_mem a n (ys ++ zs) h parts.1 in omega arith) in
      rw e (omega (arith, length-append ys (n ∷ zs), length-append ys zs))
  | inr out ↦
      let rest =
        Distinct-length n xs d
          (λ a h. let small = known a h in let other = ne_of_mem a n xs h out in omega arith) in
      omega arith
]
