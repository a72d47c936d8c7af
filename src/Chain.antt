-- ===== src/Chain.antt =====
-- Chains of numbered cells: what the `next` and the `prev` field of linked cells say of a list of
-- them. The page lists and the circular lists of the kernel are both read through this.
use mjos.Base.{
  ℕ, ◌≡◌, refl, sym, ◌∙◌, ◌≢◌, List, [], ◌∷◌, ◌++◌, arith, ◌∈◌, ◌∉◌, Distinct, Distinct-middle,
  not_mem-append, ne_of_mem,
}

-- the first of a list, or the given number
abbrev pub first_or : List ℕ → ℕ → ℕ
first_or [] d = d
first_or (x ∷ xs) d = x

-- the last of a list, or the given number
abbrev pub last_or : ℕ → List ℕ → ℕ
last_or d [] = d
last_or d (x ∷ xs) = last_or x xs

-- every `prev` names the cell before, the first one's `b`
abbrev pub Backward : (ℕ → ℕ) → ℕ → List ℕ → Type 0
Backward prev b [] = Unit {0}
Backward prev b (x ∷ xs) = (prev x ≡ b) × Backward prev x xs

-- every `next` names the cell behind, the last one's `a`
abbrev pub Forward : (ℕ → ℕ) → List ℕ → ℕ → Type 0
Forward next [] a = Unit {0}
Forward next (x ∷ xs) a = (next x ≡ first_or xs a) × Forward next xs a

pub last_or-mem : (d x : ℕ) (xs : List ℕ) → last_or d (x ∷ xs) ∈ x ∷ xs
last_or-mem d x [] = ground arith
last_or-mem d x (y ∷ ys) = ground (arith, last_or-mem x y ys)

pub last_or-snoc : (d : ℕ) (xs : List ℕ) (x : ℕ) → last_or d (xs ++ x ∷ []) ≡ x
last_or-snoc d [] x = refl
last_or-snoc d (y ∷ ys) x = last_or-snoc y ys x

pub last_or-append : (d : ℕ) (xs ys : List ℕ) → last_or d (xs ++ ys) ≡ last_or (last_or d xs) ys
last_or-append d [] ys = refl
last_or-append d (x ∷ xs) ys = last_or-append x xs ys

pub first_or-append : (xs ys : List ℕ) (d : ℕ) → first_or (xs ++ ys) d ≡ first_or xs (first_or ys d)
first_or-append [] ys d = refl
first_or-append (x ∷ xs) ys d = refl

pub first_or-ne : (a : ℕ) (xs : List ℕ) (d : ℕ) → a ∉ xs → a ≢ d → a ≢ first_or xs d
first_or-ne a [] d out n = n
first_or-ne a (x ∷ xs) d out n = ground arith

pub last_or-ne : (a d : ℕ) (xs : List ℕ) → a ∉ xs → a ≢ d → a ≢ last_or d xs
last_or-ne a d [] out n = n
last_or-ne a d (x ∷ xs) out n = last_or-ne a x xs (ground arith) (ground arith)

pub last_or-not_mem : (d : ℕ) (ys zs : List ℕ) → Distinct (ys ++ zs) → d ∉ zs → last_or d ys ∉ zs
last_or-not_mem d [] zs n out = out
last_or-not_mem d (y ∷ ys) zs n out = last_or-not_mem y ys zs n.1 (not_mem-append y ys zs n.0).1

pub first_or-not_mem : (ys zs : List ℕ) (d : ℕ) → Distinct (ys ++ zs) → d ∉ ys → first_or zs d ∉ ys
first_or-not_mem ys [] d n out = out
first_or-not_mem ys (z ∷ zs) d n out = (not_mem-append z ys zs (Distinct-middle z ys zs n).1).0

module _ (prev : ℕ → ℕ) where
  pub Backward-append :
      (b : ℕ) (xs ys : List ℕ)
      → Backward prev b (xs ++ ys)
      → Backward prev b xs × Backward prev (last_or b xs) ys
  Backward-append b [] ys h = (tt, h)
  Backward-append b (x ∷ xs) ys h = let r = Backward-append x xs ys h.1 in ((h.0, r.0), r.1)

  pub append-Backward :
      (b : ℕ) (xs ys : List ℕ)
      → Backward prev b xs
      → Backward prev (last_or b xs) ys
      → Backward prev b (xs ++ ys)
  append-Backward b [] ys h k = k
  append-Backward b (x ∷ xs) ys h k = (h.0, append-Backward x xs ys h.1 k)

  pub Backward-frame :
      (prev' : ℕ → ℕ) (b : ℕ) (xs : List ℕ)
      → ((a : ℕ) → a ∈ xs → prev' a ≡ prev a)
      → Backward prev b xs
      → Backward prev' b xs
  Backward-frame prev' b [] same h = tt
  Backward-frame prev' b (x ∷ xs) same h =
      (ground (arith, same x), Backward-frame prev' x xs (λ a i. same a (ground arith)) h.1)

  -- Redirecting the first cell's `prev` redirects the start of the chain.
  pub Backward-set_first :
      (prev' : ℕ → ℕ) (b b' x : ℕ) (xs : List ℕ)
      → prev' x ≡ b'
      → ((a : ℕ) → a ∈ xs → prev' a ≡ prev a)
      → Backward prev b (x ∷ xs)
      → Backward prev' b' (x ∷ xs)
  Backward-set_first prev' b b' x xs e same h = (e, Backward-frame prev' x xs same h.1)

module _ (next : ℕ → ℕ) where
  pub Forward-append :
      (xs ys : List ℕ) (d : ℕ)
      → Forward next (xs ++ ys) d
      → Forward next xs (first_or ys d) × Forward next ys d
  Forward-append [] ys d h = (tt, h)
  Forward-append (x ∷ xs) ys d h =
      let r = Forward-append xs ys d h.1 in
      ((ground (arith, h.0, first_or-append xs ys d), r.0), r.1)

  pub append-Forward :
      (xs ys : List ℕ) (d : ℕ)
      → Forward next xs (first_or ys d)
      → Forward next ys d
      → Forward next (xs ++ ys) d
  append-Forward [] ys d h k = k
  append-Forward (x ∷ xs) ys d h k =
      (ground (arith, h.0, first_or-append xs ys d), append-Forward xs ys d h.1 k)

  pub Forward-frame :
      (next' : ℕ → ℕ) (xs : List ℕ) (d : ℕ)
      → ((a : ℕ) → a ∈ xs → next' a ≡ next a)
      → Forward next xs d
      → Forward next' xs d
  Forward-frame next' [] d same h = tt
  Forward-frame next' (x ∷ xs) d same h =
      (ground (arith, same x), Forward-frame next' xs d (λ a i. same a (ground arith)) h.1)

  -- Redirecting the last cell's `next` redirects the end of the chain.
  pub Forward-set_last :
      (next' : ℕ → ℕ) (d d' x : ℕ) (xs : List ℕ)
      → next' (last_or x xs) ≡ d'
      → ((a : ℕ) → a ∈ x ∷ xs → a ≢ last_or x xs → next' a ≡ next a)
      → Distinct (x ∷ xs)
      → Forward next (x ∷ xs) d
      → Forward next' (x ∷ xs) d'
  Forward-set_last next' d d' x [] e same n h = (e, tt)
  Forward-set_last next' d d' x (y ∷ ys) e same n h =
      let last = last_or-mem x y ys in
      (
        same x (ground arith) (λ q. ne_of_mem (last_or y ys) x (y ∷ ys) last n.0 (sym q)) ∙ h.0,
        Forward-set_last next' d d' y ys e (λ a i. same a (ground arith)) n.1 h.1,
      )
