-- ===== src/ListHead/Ring.antt =====
-- What it means that entries form a circular list, and that it is a fact about its entries alone.
use mjos.Base.{ℕ, ◌≡◌, ◌≢◌, refl, ap, List, [], ◌∷◌, arith, ◌∈◌, Distinct}
use mjos.Chain.{last_or, Backward, Forward, Backward-frame, Forward-frame}
use mjos.ListHead.{ListEntry, Entries, list_init}

abbrev pub nexts : Entries → ℕ → ℕ
nexts s a = (s a).next

abbrev pub prevs : Entries → ℕ → ℕ
prevs s a = (s a).prev

-- From `head` round to `head` the `next` fields lead through the distinct entries `xs`, and the
-- `prev` fields lead back.
pub record IsRing (s : Entries) (head : ℕ) (xs : List ℕ) : Type 0 where
  pub forward : Forward (nexts s) (head ∷ xs) head
  pub backward : Backward (prevs s) (last_or head xs) (head ∷ xs)
  pub distinct : Distinct (head ∷ xs)

-- A ring survives any change that spares its entries.
pub IsRing-frame :
    (s s' : Entries) (head : ℕ) (xs : List ℕ)
    → ((a : ℕ) → a ∈ head ∷ xs → s' a ≡ s a)
    → IsRing s head xs
    → IsRing s' head xs
IsRing-frame s s' head xs same r = record {
  forward =
      Forward-frame (nexts s) (nexts s') (head ∷ xs) head
        (λ a i. ap (λ (e : ListEntry). e.next) (same a i)) r.forward;
  backward =
      Backward-frame (prevs s) (prevs s') (last_or head xs) (head ∷ xs)
        (λ a i. ap (λ (e : ListEntry). e.prev) (same a i)) r.backward;
  distinct = r.distinct;
}

-- An initialised head is an empty ring.
pub list_init-IsRing : (head : ℕ) (s : Entries) → IsRing (list_init head s) head []
unfolding list_init
list_init-IsRing head s = record {
  forward = (ground arith, tt);
  backward = (ground arith, tt);
  distinct = (refl, tt);
}

-- `list_init` changes the head only.
pub list_init-frame : (head : ℕ) (s : Entries) (a : ℕ) → a ≢ head → list_init head s a ≡ s a
unfolding list_init
list_init-frame head s a n = ground arith
