-- ===== src/Spin/Queue.antt =====
-- The queue of threads in front of a ticket lock: who holds which ticket.
use mjos.Base.{
  ℕ, suc, ◌+◌, ◌%◌, ◌^◌, ◌<◌, ◌≡◌, sym, ap, ◌∙◌, ◌≢◌, ◌⊎◌, inl, inr, List, [], ◌∷◌, ◌++◌, arith,
  length, ◌∈◌, ◌∉◌, Distinct, eq-cases, not_mem-cons,
}
use mjos.Spin.{Phase, idle, holding, waiting, System, move}

-- The threads of `q` wait with the tickets from `k` on.
abbrev pub Line : (ℕ → Phase) → ℕ → List ℕ → Type 0
Line phase k [] = Unit {0}
Line phase k (t ∷ q) = (phase t ≡ waiting (k % 2 ^ 32)) × Line phase (k + 1) q

-- The first thread of the queue has the ticket served, or holds the lock.
abbrev pub Front : (ℕ → Phase) → ℕ → List ℕ → Type 0
Front phase k [] = Unit {0}
Front phase k (t ∷ q) =
    ((phase t ≡ waiting (k % 2 ^ 32)) ⊎ (phase t ≡ holding)) × Line phase (k + 1) q

-- `q` is the queue of the lock, in the order of the tickets.
pub record IsQueue (n : ℕ) (s : System) (q : List ℕ) : Type 0 where
  pub svc : s.lock.svc < 2 ^ 32
  pub tkt : s.lock.tkt ≡ (s.lock.svc + length q) % 2 ^ 32
  pub front : Front s.phase s.lock.svc q
  pub others : (a : ℕ) → a ∉ q → s.phase a ≡ idle
  pub distinct : Distinct q
  pub known : (a : ℕ) → a ∈ q → a < n

pub move_self : (f : ℕ → Phase) (t : ℕ) (p : Phase) → move f t p t ≡ p
unfolding move
move_self f t p = ground arith

pub move-ne : (f : ℕ → Phase) (t a : ℕ) (p : Phase) → a ≢ t → move f t p a ≡ f a
unfolding move
move-ne f t a p n = ground arith

-- Where the line agrees, it stays a line.
pub Line-move :
    (f : ℕ → Phase) (t : ℕ) (p : Phase) (k : ℕ) (q : List ℕ)
    → t ∉ q
    → Line f k q
    → Line (move f t p) k q
Line-move f t p k [] out l = tt
Line-move f t p k (x ∷ q) out l =
    let apart = not_mem-cons t x q out in
    (move-ne f t x p (λ e. apart.0 (sym e)) ∙ l.0, Line-move f t p (k + 1) q apart.1 l.1)

pub Line-snoc :
    (f : ℕ → Phase) (t k : ℕ) (q : List ℕ)
    → Line f k q
    → f t ≡ waiting ((k + length q) % 2 ^ 32)
    → Line f k (q ++ t ∷ [])
Line-snoc f t k [] l e =
    let here : k + 0 ≡ k = omega arith in (e ∙ ap (λ i. waiting (i % 2 ^ 32)) here, tt)
Line-snoc f t k (x ∷ q) l e =
    let there : k + suc (length q) ≡ k + 1 + length q = omega arith in
    (l.0, Line-snoc f t (k + 1) q l.1 (e ∙ ap (λ i. waiting (i % 2 ^ 32)) there))

-- A thread in the line waits, with a ticket less than `length q` behind the first.
pub Line-ticket :
    (f : ℕ → Phase) (t k : ℕ) (q : List ℕ)
    → Line f k q
    → t ∈ q
    → (i : ℕ) × (i < length q) × (f t ≡ waiting ((k + i) % 2 ^ 32))
Line-ticket f t k [] l h = absurd (ground (arith, h))
Line-ticket f t k (x ∷ q) l h = elim (eq-cases t x) [
  | inl e ↦
      let here : k ≡ k + 0 = omega arith in
      (0, omega arith, ap f e ∙ l.0 ∙ ap (λ i. waiting (i % 2 ^ 32)) here)
  | inr n ↦
      let (i, small, ticket) = Line-ticket f t (k + 1) q l.1 (ground (arith, h, n)) in
      let there : k + 1 + i ≡ k + suc i = omega arith in
      (suc i, omega arith, ticket ∙ ap (λ j. waiting (j % 2 ^ 32)) there)
]

pub Line-mod :
    (f : ℕ → Phase) (k k' : ℕ) (q : List ℕ) → k % 2 ^ 32 ≡ k' % 2 ^ 32 → Line f k q → Line f k' q
Line-mod f k k' [] e l = tt
Line-mod f k k' (x ∷ q) e l = (l.0 ∙ ap waiting e, Line-mod f (k + 1) (k' + 1) q (omega arith) l.1)

pub Front-move :
    (f : ℕ → Phase) (t : ℕ) (p : Phase) (k : ℕ) (q : List ℕ)
    → t ∉ q
    → Front f k q
    → Front (move f t p) k q
Front-move f t p k [] out l = tt
Front-move f t p k (x ∷ q) out l =
    let apart = not_mem-cons t x q out in
    let same = move-ne f t x p (λ e. apart.0 (sym e)) in
    (
      elim (l.0) [ inl e ↦ inl (same ∙ e) | inr e ↦ inr (same ∙ e) ],
      Line-move f t p (k + 1) q apart.1 l.1,
    )

pub Front-snoc :
    (f : ℕ → Phase) (t k : ℕ) (q : List ℕ)
    → Front f k q
    → f t ≡ waiting ((k + length q) % 2 ^ 32)
    → Front f k (q ++ t ∷ [])
Front-snoc f t k [] l e =
    let here : k + 0 ≡ k = omega arith in (inl (e ∙ ap (λ i. waiting (i % 2 ^ 32)) here), tt)
Front-snoc f t k (x ∷ q) l e =
    let there : k + suc (length q) ≡ k + 1 + length q = omega arith in
    (l.0, Line-snoc f t (k + 1) q l.1 (e ∙ ap (λ i. waiting (i % 2 ^ 32)) there))

-- A thread of the queue is not outside.
pub Front-busy : (f : ℕ → Phase) (t k : ℕ) (q : List ℕ) → Front f k q → t ∈ q → f t ≢ idle
Front-busy f t k [] l h e = absurd (ground (arith, h))
Front-busy f t k (x ∷ q) l h e = elim (eq-cases t x) [
  | inl same ↦
      let at : f x ≡ idle = sym (ap f same) ∙ e in
      elim (l.0) [ inl w ↦ cc (at, w) | inr w ↦ cc (at, w) ]
  | inr n ↦ let (i, small, w) = Line-ticket f t (k + 1) q l.1 (ground (arith, h, n)) in cc (w, e)
]

pub Line-Front : (f : ℕ → Phase) (k : ℕ) (q : List ℕ) → Line f k q → Front f k q
Line-Front f k [] l = tt
Line-Front f k (x ∷ q) l = (inl (l.0), l.1)
