-- ===== src/CString/Strtol/Value.antt =====
-- The value that `strtol` reads, and where it stops.
use native.Mathlib.Nat.{div-add-mod', mul-le-mul_right, mod-lt, mod-eq_of_lt, mul-suc}
use mjos.Base.{
  ℕ, zero, suc, ◌+◌, ◌*◌, ◌/◌, ◌%◌, ◌^◌, ◌≤◌, ◌<◌, ◌≡◌, ◌≢◌, ◌⊎◌, inl, inr, refl, ap, sym, ◌==◌,
  ltb, leb, ◌&&◌, ◌||◌, Bool-cases, true, false, none, some, List, [], ◌∷◌, length, arith,
}
use mjos.CString.{Mem}
use mjos.CString.Strtol.{
  digit_value, Any, no_digits, digits, too_big, is_too_big, Scan, add_digit, scan_digits,
}

-- The number that digits stand for, behind `acc`.
unfoldable pub number : ℕ → ℕ → List ℕ → ℕ
number base acc [] = acc
number base acc (d ∷ ds) = number base (acc * base + d) ds

-- The digits `ds` of `base` stand from `c` on, `c` itself read and `s` behind it, and then no further digit.
unfoldable pub Digits : Mem → ℕ → List ℕ → ℕ → ℕ → Type 0
Digits m base [] c s = (digit_value c ≡ none) ⊎ ((d : ℕ) × (digit_value c ≡ some d) × (base ≤ d))
Digits m base (d ∷ ds) c s = (digit_value c ≡ some d) × (d < base) × Digits m base ds (m s) (s + 1)

-- What the loop has, for the number `n` read so far and a limit.
unfoldable pub Reads : ℕ → ℕ → Any → ℕ → Type 0
Reads lim n too_big acc = lim < n
Reads lim n any acc = (n ≤ lim) × (acc ≡ n)

fits :
    (base lim acc d : ℕ)
    → base ≢ 0
    → d < base
    → (ltb (lim / base) acc || ((acc == lim / base) && ltb (lim % base) d)) ≡ false
    → acc * base + d ≤ lim
fits base lim acc d n h e =
    let q = lim / base in
    let r = lim % base in
    let whole : q * base + r ≡ lim = div-add-mod' lim base in
    let split : (acc < q) ⊎ ((acc ≡ q) × (d ≤ r)) = ground (arith, e) in
    elim split [
      | inl lt ↦
          let k : suc acc * base ≤ q * base = mul-le-mul_right base lt in omega (arith, k, whole, h)
      | inr (same, le) ↦
          let k : acc * base ≡ q * base = ap (λ x. x * base) same in omega (arith, k, whole, le)
    ]

exceeds :
    (base lim acc d : ℕ)
    → base ≢ 0
    → (ltb (lim / base) acc || ((acc == lim / base) && ltb (lim % base) d)) ≡ true
    → lim < acc * base + d
exceeds base lim acc d n e =
    let q = lim / base in
    let r = lim % base in
    let whole : q * base + r ≡ lim = div-add-mod' lim base in
    let rest : r < base = mod-lt lim (omega (arith, n)) in
    let split : (q < acc) ⊎ ((acc ≡ q) × (r < d)) = ground (arith, e) in
    elim split [
      | inl lt ↦
          let k : suc q * base ≤ acc * base = mul-le-mul_right base lt in
          omega (arith, k, whole, rest)
      | inr (same, lt) ↦
          let k : acc * base ≡ q * base = ap (λ x. x * base) same in omega (arith, k, whole, lt)
    ]

-- Further digits do not make a number smaller.
grows : (base acc d : ℕ) → base ≢ 0 → acc ≤ acc * base + d
grows zero acc d n = absurd (n refl)
grows (suc b) acc d n = let k : acc * suc b ≡ acc * b + acc = mul-suc acc b in omega (arith, k)

-- One digit more.
too_big-Reads :
    (base lim d n acc s : ℕ)
    → base ≢ 0
    → lim < n
    → Reads lim
        (n * base + d)
        (add_digit base
          (lim / base)
          (lim % base)
          d
          (record { acc = acc; any = too_big; s = s })).any
        (add_digit base
          (lim / base)
          (lim % base)
          d
          (record { acc = acc; any = too_big; s = s })).acc
unfolding add_digit Reads is_too_big
too_big-Reads base lim d n acc s nz r = omega (arith, grows base n d nz, r)

fitting-Reads :
    (base lim d acc s : ℕ) (any : Any)
    → is_too_big any ≡ false
    → base ≢ 0
    → d < base
    → lim < 2 ^ 64
    → acc ≤ lim
    → Reads lim
        (acc * base + d)
        (add_digit base (lim / base) (lim % base) d (record { acc = acc; any = any; s = s })).any
        (add_digit base (lim / base) (lim % base) d (record { acc = acc; any = any; s = s })).acc
unfolding add_digit Reads
fitting-Reads base lim d acc s any known nz h small le =
    elim (Bool-cases (ltb (lim / base) acc || ((acc == lim / base) && ltb (lim % base) d))) [
      | inl e ↦ rw (known, e) (exceeds base lim acc d nz e)
      | inr e ↦
          let f = fits base lim acc d nz h e in
          let whole : (acc * base + d) % 2 ^ 64 ≡ acc * base + d =
            mod-eq_of_lt (omega (arith, f, small)) in
          rw (known, e) (f, whole)
    ]

add_digit-Reads :
    (base lim d n acc s : ℕ) (any : Any)
    → base ≢ 0
    → d < base
    → lim < 2 ^ 64
    → Reads lim n any acc
    → Reads lim
        (n * base + d)
        (add_digit base (lim / base) (lim % base) d (record { acc = acc; any = any; s = s })).any
        (add_digit base (lim / base) (lim % base) d (record { acc = acc; any = any; s = s })).acc
unfolding Reads is_too_big
add_digit-Reads base lim d n acc s too_big nz h small r = too_big-Reads base lim d n acc s nz r
add_digit-Reads base lim d n acc s no_digits nz h small (le, e) =
    rw (sym e) (fitting-Reads base lim d acc s no_digits refl nz h small (omega (arith, le, e)))
add_digit-Reads base lim d n acc s digits nz h small (le, e) =
    rw (sym e) (fitting-Reads base lim d acc s digits refl nz h small (omega (arith, le, e)))

add_digit-s : (base cutoff cutlim d : ℕ) (t : Scan) → (add_digit base cutoff cutlim d t).s ≡ t.s
unfolding add_digit
add_digit-s base cutoff cutlim d t =
    elim (Bool-cases
      (is_too_big t.any || ltb cutoff t.acc || ((t.acc == cutoff) && ltb cutlim d))) [
        | inl e ↦ rw e refl
        | inr e ↦ rw e refl
      ]

unfoldable pub HasDigits : Any → Type 0
HasDigits no_digits = ⊥
HasDigits _ = Unit {0}

add_digit-HasDigits :
    (base cutoff cutlim d : ℕ) (t : Scan) → HasDigits (add_digit base cutoff cutlim d t).any
unfolding add_digit HasDigits
add_digit-HasDigits base cutoff cutlim d t =
    elim (Bool-cases
      (is_too_big t.any || ltb cutoff t.acc || ((t.acc == cutoff) && ltb cutlim d))) [
        | inl e ↦ rw e tt
        | inr e ↦ rw e tt
      ]

no_more : (any : Any) → HasDigits any ⊎ ◌≢◌ {A = ℕ} 0 0 → HasDigits any
no_more any (inl h) = h
no_more any (inr n) = absurd (n refl)

-- The loop reads all the digits.
pub scan_digits-number :
    (fuel : ℕ) (m : Mem) (base lim n c : ℕ) (ds : List ℕ) (t : Scan)
    → base ≢ 0
    → lim < 2 ^ 64
    → Digits m base ds c t.s
    → Reads lim n t.any t.acc
    → length ds < fuel
    → (t' : Scan) × (scan_digits fuel m base (lim / base) (lim % base) c t ≡ some t')
      × Reads lim (number base n ds) t'.any t'.acc
      × (t'.s ≡ t.s + length ds)
      × (HasDigits t.any ⊎ (length ds ≢ 0) → HasDigits t'.any)
unfolding scan_digits Digits number
scan_digits-number zero m base lim n c ds t nz small g r enough = absurd (omega arith)
scan_digits-number (suc fuel) m base lim n c [] t nz small g r enough = elim g [
  | inl e ↦ (t, rw (e, scan_digits) refl, r, omega arith, no_more t.any)
  | inr (d, e, h) ↦
      let stop : leb base d ≡ true = ground (arith, h) in
      (t, rw (e, scan_digits) (rw stop refl), r, omega arith, no_more t.any)
]
scan_digits-number (suc fuel) m base lim n c (d ∷ ds) t nz small (e, h, g) r enough =
    let next = add_digit base (lim / base) (lim % base) d t in
    let go : leb base d ≡ false = ground (arith, h) in
    let at = add_digit-s base (lim / base) (lim % base) d t in
    let (t', run, reads, s, some_digits) =
      scan_digits-number fuel m base lim (n * base + d) (m next.s) ds
        (record next { s = next.s + 1 }) nz small (rw at g)
        (add_digit-Reads base lim d n t.acc t.s t.any nz h small r) (omega arith) in
    (
      t',
      rw (e, scan_digits) (rw go run),
      reads,
      omega (arith, s, at),
      λ h. some_digits (inl (add_digit-HasDigits base (lim / base) (lim % base) d t)),
    )
