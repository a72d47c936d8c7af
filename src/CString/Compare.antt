-- ===== src/CString/Compare.antt =====
-- `memcmp`, `strncmp` and `strcmp`: what they tell apart.
use mjos.Base.{
  ◌-◌, ltb, ◌==◌, if◌then◌else◌, true, false, ℕ, zero, suc, ◌+◌, ◌<◌, ◌≡◌, refl, ap, sym, ◌∙◌, ◌≢◌,
  List, [], ◌∷◌, some, arith, length, eq-cases, ◌⊎◌, inl, inr,
}
use mjos.Base.Int.{ℤ, pos, negsuc, ◌-ℤ◌}
use mjos.CString.{Mem, char_diff, strncmp, memcmp, strcmp}
use mjos.CString.Text.{IsText}

-- every address holds a byte
abbrev pub IsBytes : Mem → Type 0
IsBytes m = (a : ℕ) → m a < 256

-- `n` bytes from `p` on are those from `q` on
abbrev pub Agree : Mem → ℕ → ℕ → ℕ → Type 0
Agree m p q n = (i : ℕ) → i < n → m (p + i) ≡ m (q + i)

Agree-head : (m : Mem) (p q n : ℕ) → Agree m p q (suc n) → m p ≡ m q
Agree-head m p q n a =
    let at_p : p ≡ p + 0 = omega arith in
    let at_q : q + 0 ≡ q = omega arith in ap m at_p ∙ a 0 (omega arith) ∙ ap m at_q

Agree-tail : (m : Mem) (p q n : ℕ) → Agree m p q (suc n) → Agree m (p + 1) (q + 1) n
Agree-tail m p q n a i h =
    let at_p : p + 1 + i ≡ p + suc i = omega arith in
    let at_q : q + suc i ≡ q + 1 + i = omega arith in
    ap m at_p ∙ a (suc i) (omega arith) ∙ ap m at_q

Agree-cons : (m : Mem) (p q n : ℕ) → m p ≡ m q → Agree m (p + 1) (q + 1) n → Agree m p q (suc n)
Agree-cons m p q n e a zero h =
    let at_p : p + 0 ≡ p = omega arith in
    let at_q : q ≡ q + 0 = omega arith in ap m at_p ∙ e ∙ ap m at_q
Agree-cons m p q n e a (suc i) h =
    let at_p : p + suc i ≡ p + 1 + i = omega arith in
    let at_q : q + 1 + i ≡ q + suc i = omega arith in ap m at_p ∙ a i (omega arith) ∙ ap m at_q

char_diff_self : (a : ℕ) → char_diff a a ≡ pos 0
unfolding char_diff
char_diff_self a = ground arith

char_diff-zero : (a b : ℕ) → a < 256 → b < 256 → char_diff a b ≡ pos 0 → a ≡ b
unfolding char_diff
char_diff-zero a b p q e = ground arith

memcmp-head : (m : Mem) (p q n : ℕ) → IsBytes m → memcmp m p q (suc n) ≡ pos 0 → m p ≡ m q
unfolding memcmp
memcmp-head m p q n b e = ground (arith, char_diff-zero (m p) (m q) (b p) (b q))

memcmp-step : (m : Mem) (p q n : ℕ) → m p ≡ m q → memcmp m p q (suc n) ≡ memcmp m (p + 1) (q + 1) n
unfolding memcmp
memcmp-step m p q n e = ground arith

-- `memcmp` returns 0 exactly where the `n` bytes agree.
pub memcmp-Agree :
    (m : Mem) (p q n : ℕ)
    → IsBytes m
    → (memcmp m p q n ≡ pos 0 → Agree m p q n) × (Agree m p q n → memcmp m p q n ≡ pos 0)
unfolding memcmp
memcmp-Agree m p q zero b = ((λ e i h. absurd (omega arith)), (λ a. refl))
memcmp-Agree m p q (suc n) b =
    let rest = memcmp-Agree m (p + 1) (q + 1) n b in
    (
      (λ e.
          let same = memcmp-head m p q n b e in
          Agree-cons m p q n same (rest.0 (sym (memcmp-step m p q n same) ∙ e))),
      (λ a. memcmp-step m p q n (Agree-head m p q n a) ∙ rest.1 (Agree-tail m p q n a)),
    )

-- the value of a byte as a `char`, which has a sign here
abbrev pub char_value : ℕ → ℤ
char_value a = if ltb a 128 then pos a else negsuc (255 - a)

char_diff-value : (a b : ℕ) → a < 256 → b < 256 → char_diff a b ≡ char_value a -ℤ char_value b
unfolding char_diff
char_diff-value a b p q = ground arith

differ_here :
    (m : Mem) (p q n : ℕ)
    → IsBytes m
    → m p ≢ m q
    → strncmp m p q (suc n) ≡ char_value (m p) -ℤ char_value (m q)
unfolding strncmp
differ_here m p q n b d =
    let value = char_diff-value (m p) (m q) (b p) (b q) in
    let e : (m p == m q) ≡ false = ground (arith, d) in rw e value

same_here : (m : Mem) (p q n : ℕ) → m p ≡ m q → strncmp m p q (suc n) ≡ strncmp m (p + 1) (q + 1) n
unfolding strncmp
same_here m p q n e = let same : (m p == m q) ≡ true = ground (arith, e) in rw same refl

-- `strncmp` of memories of bytes: where the first `i` of at most `n` bytes agree and the next one, still
-- among the `n`, does not, it returns the difference of these two as signed chars. A zero that ends both
-- texts before does not stop it.
pub strncmp-first :
    (m : Mem) (p q n i : ℕ)
    → IsBytes m
    → i < n
    → Agree m p q i
    → m (p + i) ≢ m (q + i)
    → strncmp m p q n ≡ char_value (m (p + i)) -ℤ char_value (m (q + i))
strncmp-first m p q zero i b l a d = absurd (omega arith)
strncmp-first m p q (suc n) zero b l a d =
    let at_p : p + 0 ≡ p = omega arith in
    let at_q : q + 0 ≡ q = omega arith in
    rw (at_p, at_q) (differ_here m p q n b (rw (at_p, at_q) at d))
strncmp-first m p q (suc n) (suc i) b l a d =
    let at_p : p + suc i ≡ p + 1 + i = omega arith in
    let at_q : q + suc i ≡ q + 1 + i = omega arith in
    rw (at_p, at_q)
      (same_here m p q n (Agree-head m p q i a)
        ∙ strncmp-first m (p + 1) (q + 1) n i b (omega arith) (Agree-tail m p q i a)
            (rw (at_p, at_q) at d))

strcmp-stop :
    (m : Mem) (p q fuel : ℕ)
    → (m p ≡ 0) ⊎ (m p ≢ m q)
    → strcmp (suc fuel) m p q ≡ some (char_diff (m p) (m q))
unfolding strcmp
strcmp-stop m p q fuel (inl e) = ground arith
strcmp-stop m p q fuel (inr n) = ground arith

strcmp-step :
    (m : Mem) (p q fuel : ℕ)
    → m p ≢ 0
    → m p ≡ m q
    → strcmp (suc fuel) m p q ≡ strcmp fuel m (p + 1) (q + 1)
unfolding strcmp
strcmp-step m p q fuel n e = ground arith

strcmp-differ :
    (m : Mem) (p q fuel : ℕ) → IsBytes m → m p ≢ m q → strcmp (suc fuel) m p q ≢ some (pos 0)
strcmp-differ m p q fuel b n e =
    let stop = strcmp-stop m p q fuel (inr n) in
    let zero_diff : char_diff (m p) (m q) ≡ pos 0 = cc (stop, e) in
    n (char_diff-zero (m p) (m q) (b p) (b q) zero_diff)

-- Where it returns 0, the texts are equal, and the other way round.
strcmp-zero :
    (m : Mem) (s t : List ℕ) (p q fuel : ℕ)
    → IsBytes m
    → IsText m p s
    → IsText m q t
    → length s < fuel
    → (strcmp fuel m p q ≡ some (pos 0) → s ≡ t) × (s ≡ t → strcmp fuel m p q ≡ some (pos 0))
strcmp-zero m s t p q zero b i j f = absurd (omega arith)
strcmp-zero m [] [] p q (suc fuel) b i j f =
    let same : m p ≡ m q = i ∙ sym j in
    (
      (λ e. refl),
      (λ e.
          strcmp-stop m p q fuel (inl i)
          ∙ ap (λ x. some (char_diff (m p) x)) (sym same)
          ∙ ap some (char_diff_self (m p))),
    )
strcmp-zero m [] (d ∷ t) p q (suc fuel) b i j f =
    let differ : m p ≢ m q = λ e. j.1 (sym j.0 ∙ sym e ∙ i) in
    ((λ e. absurd (strcmp-differ m p q fuel b differ e)), (λ e. absurd (ground (arith, e))))
strcmp-zero m (c ∷ s) [] p q (suc fuel) b i j f =
    let differ : m p ≢ m q = λ e. i.1 (sym i.0 ∙ e ∙ j) in
    ((λ e. absurd (strcmp-differ m p q fuel b differ e)), (λ e. absurd (ground (arith, e))))
strcmp-zero m (c ∷ s) (d ∷ t) p q (suc fuel) b i j f =
    let rest = strcmp-zero m s t (p + 1) (q + 1) fuel b i.2 j.2 (omega arith) in
    let nonzero : m p ≢ 0 = λ e. i.1 (sym i.0 ∙ e) in
    elim (eq-cases (m p) (m q)) [
      | inl same ↦
          let step = strcmp-step m p q fuel nonzero same in
          let head : c ≡ d = sym i.0 ∙ same ∙ j.0 in
          ((λ e. cc (head, rest.0 (sym step ∙ e))), (λ e. step ∙ rest.1 (ground (arith, e))))
      | inr differ ↦ (
        (λ e. absurd (strcmp-differ m p q fuel b differ e)),
        (λ e. absurd (ground (arith, e, i.0, j.0, differ))),
      )
    ]

-- `strcmp` returns, in one round more than its first text is long.
strcmp-returns :
    (m : Mem) (s : List ℕ) (p q fuel : ℕ)
    → IsText m p s
    → length s < fuel
    → (z : ℤ) × (strcmp fuel m p q ≡ some z)
strcmp-returns m s p q zero i f = absurd (omega arith)
strcmp-returns m [] p q (suc fuel) i f = (char_diff (m p) (m q), strcmp-stop m p q fuel (inl i))
strcmp-returns m (c ∷ s) p q (suc fuel) i f = elim (eq-cases (m p) (m q)) [
  | inl same ↦
      let (z, rest) = strcmp-returns m s (p + 1) (q + 1) fuel i.2 (omega arith) in
      (z, strcmp-step m p q fuel (λ e. i.1 (sym i.0 ∙ e)) same ∙ rest)
  | inr differ ↦ (char_diff (m p) (m q), strcmp-stop m p q fuel (inr differ))
]

-- For memories of bytes and two texts that end with a zero: `strcmp` returns, in one round more than the
-- first text is long, and what it returns is 0 exactly where the texts are equal.
pub strcmp-equal :
    (m : Mem) (s t : List ℕ) (p q fuel : ℕ)
    → IsBytes m
    → IsText m p s
    → IsText m q t
    → length s < fuel
    → (z : ℤ) × (strcmp fuel m p q ≡ some z) × (z ≡ pos 0 → s ≡ t) × (s ≡ t → z ≡ pos 0)
strcmp-equal m s t p q fuel b i j f =
    let (z, returns) = strcmp-returns m s p q fuel i f in
    let (fwd, back) = strcmp-zero m s t p q fuel b i j f in
    (
      z,
      returns,
      (λ e. fwd (returns ∙ ap some e)),
      (λ e. let zero_then = back e in cc (returns, zero_then)),
    )
