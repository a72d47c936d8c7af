-- ===== src/ListHead/Pair.antt =====
-- Two circular lists in one memory that share no entry: an operation on the one leaves the other.
use mjos.Base.{
  ℕ, List, [], ◌∷◌, ◌++◌, append-nil, ◌∉◌, Apart, Apart-sym, Apart-insert, Apart-drop, outside,
  mem-middle, Distinct-middle,
}
use mjos.ListHead.{Entries, list_add, list_add_tail, list_remove}
use mjos.ListHead.Ring.{IsRing, IsRing-frame}
use mjos.ListHead.Insert.{list_add-IsRing, list_add_tail-IsRing, list_add-frame}
use mjos.ListHead.Unlink.{list_remove-IsRing, list_remove-frame}

-- `f` heads a ring of `xs` and `g` one of `ys`, with no entry in both.
pub record IsPair (s : Entries) (f : ℕ) (xs : List ℕ) (g : ℕ) (ys : List ℕ) : Type 0 where
  pub first : IsRing s f xs
  pub second : IsRing s g ys
  pub apart : Apart (f ∷ xs) (g ∷ ys)

-- An entry that is in neither ring.
abbrev pub IsLoose : ℕ → ℕ → List ℕ → ℕ → List ℕ → Type 0
IsLoose n f xs g ys = (n ∉ f ∷ xs) × (n ∉ g ∷ ys)

pub IsPair-swap : {s : Entries} {f g : ℕ} {xs ys : List ℕ} → IsPair s f xs g ys → IsPair s g ys f xs
IsPair-swap {f} {g} {xs} {ys} p = record {
  first = p.second;
  second = p.first;
  apart = Apart-sym (f ∷ xs) (g ∷ ys) p.apart;
}

module _ {s : Entries} {f g : ℕ} where
  pub add-IsPair :
      (n : ℕ) (xs ys : List ℕ)
      → IsLoose n f xs g ys
      → IsPair s f xs g ys
      → IsPair (list_add n f s) f (n ∷ xs) g ys
  add-IsPair n xs ys l p = record {
    first = list_add-IsRing s n f xs l.0 p.first;
    second =
        IsRing-frame s (list_add n f s) g ys
          (λ a i.
            (list_add-frame s n f xs p.first a
              (outside a n (g ∷ ys) (f ∷ xs) i l.1 (IsPair-swap p).apart)).0)
          p.second;
    apart = Apart-insert n (f ∷ []) xs (g ∷ ys) l.1 p.apart;
  }

  pub add_tail-IsPair :
      (n : ℕ) (xs ys : List ℕ)
      → IsLoose n f xs g ys
      → IsPair s f xs g ys
      → IsPair (list_add_tail n f s) f (xs ++ n ∷ []) g ys
  add_tail-IsPair n xs ys l p = record {
    first = list_add_tail-IsRing s n f xs l.0 p.first;
    second =
        IsRing-frame s (list_add_tail n f s) g ys
          (λ a i.
            (list_add-frame s n f xs p.first a
              (outside a n (g ∷ ys) (f ∷ xs) i l.1 (IsPair-swap p).apart)).1)
          p.second;
    apart = Apart-insert n (f ∷ xs) [] (g ∷ ys) l.1 (rw append-nil p.apart);
  }

  pub remove-IsPair :
      (n : ℕ) (us vs ys : List ℕ)
      → IsPair s f (us ++ n ∷ vs) g ys
      → IsPair (list_remove n s) f (us ++ vs) g ys × IsLoose n f (us ++ vs) g ys
  remove-IsPair n us vs ys p = (
    record {
      first = (list_remove-IsRing s f n us vs p.first).0;
      second =
          IsRing-frame s (list_remove n s) g ys
            (λ a i. list_remove-frame s f n us vs p.first a ((IsPair-swap p).apart a i)) p.second;
      apart = Apart-drop n (f ∷ us) vs (g ∷ ys) p.apart;
    },
    ((Distinct-middle n (f ∷ us) vs p.first.distinct).1, p.apart n (mem-middle n (f ∷ us) vs)),
  )
