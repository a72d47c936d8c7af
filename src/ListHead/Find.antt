-- ===== src/ListHead/Find.antt =====
-- `list_find` and `list_remove_item` of kernel/include/list.h: with more rounds than entries they
-- end, and find the first entry that passes the test.
use mjos.Base.{
  ℕ, zero, suc, ◌<◌, ◌≡◌, ap, ◌∙◌, List, [], ◌∷◌, ◌++◌, Bool, true, false, Option, none, some,
  arith, length, if◌then◌else◌, Bool-cases, inl, inr, ◌∉◌, not_mem-cons,
}
use mjos.Chain.{first_or, Forward}
use mjos.ListHead.{Entries, find_from, list_find, list_remove, list_remove_item}
use mjos.ListHead.Ring.{nexts, IsRing}
use mjos.ListHead.Unlink.{list_remove-IsRing}

-- the first entry of a list that passes the test
abbrev pub first_match : (ℕ → Bool) → List ℕ → Option ℕ
first_match test [] = none
first_match test (x ∷ xs) = if test x then some x else first_match test xs

-- the list without that entry
abbrev pub drop_match : (ℕ → Bool) → List ℕ → List ℕ
drop_match test [] = []
drop_match test (x ∷ xs) = if test x then xs else x ∷ drop_match test xs

module _ (s : Entries) (head : ℕ) (test : ℕ → Bool) where
  find_from-first :
      (fuel : ℕ) (xs : List ℕ)
      → length xs < fuel
      → head ∉ xs
      → Forward (nexts s) xs head
      → find_from fuel head (first_or xs head) test s ≡ some (first_match test xs)
  unfolding find_from
  find_from-first zero xs f out h = absurd (omega arith)
  find_from-first (suc fuel) [] f out h = ground arith
  find_from-first (suc fuel) (x ∷ xs) f out h =
      let away = not_mem-cons head x xs out in
      let rest = find_from-first fuel xs (omega arith) away.1 h.1 in
      rw (h.0) (ground (arith, rest, away.0))

  -- `list_find` returns the first entry that passes the test, or NULL, and ends in at most one
  -- round more than there are entries.
  pub list_find-first :
      (fuel : ℕ) (xs : List ℕ)
      → IsRing s head xs
      → length xs < fuel
      → list_find fuel head test s ≡ some (first_match test xs)
  unfolding list_find
  list_find-first fuel xs r f =
      rw (r.forward.0) (find_from-first fuel xs f r.distinct.0 r.forward.1)

-- Where an entry passes the test, the list splits at the first one.
record SplitAt (test : ℕ → Bool) (xs : List ℕ) (e : ℕ) : Type 0 where
  left : List ℕ
  right : List ℕ
  whole : xs ≡ left ++ e ∷ right
  rest : drop_match test xs ≡ left ++ right

split_match :
    (test : ℕ → Bool) (xs : List ℕ) (e : ℕ) → first_match test xs ≡ some e → SplitAt test xs e
split_match test [] e h = absurd (cc)
split_match test (x ∷ xs) e h = elim (Bool-cases (test x)) [
  | inl t ↦ record { left = []; right = xs; whole = ground (arith, t); rest = rw t }
  | inr t ↦
      let r = split_match test xs e (rw t at h) in
      record {
        left = x ∷ r.left;
        right = r.right;
        whole = ap (λ (l : List ℕ). x ∷ l) r.whole;
        rest = rw t (ap (λ (l : List ℕ). x ∷ l) r.rest);
      }
]

module _ (s : Entries) (head : ℕ) (test : ℕ → Bool) (fuel : ℕ) (xs : List ℕ) (r : IsRing s head xs)
    (f : length xs < fuel) where
  -- `list_remove_item` removes the first entry that passes the test and says so.
  pub list_remove_item-found :
      (e : ℕ)
      → first_match test xs ≡ some e
      → (list_remove_item fuel head test s ≡ some (true, list_remove e s))
        × IsRing (list_remove e s) head (drop_match test xs)
  unfolding list_remove_item
  list_remove_item-found e h =
      let p = split_match test xs e h in
      let found : list_find fuel head test s ≡ some (some e) =
        list_find-first s head test fuel xs r f ∙ ap some h in
      (
        rw (found, list_remove_item),
        rw (p.rest) (list_remove-IsRing s head e p.left p.right (rw p.whole at r)).0,
      )

  -- Where none passes, it says so and changes nothing.
  pub list_remove_item-missing :
      first_match test xs ≡ none → list_remove_item fuel head test s ≡ some (false, s)
  unfolding list_remove_item
  list_remove_item-missing h =
      let found : list_find fuel head test s ≡ some none =
        list_find-first s head test fuel xs r f ∙ ap some h in
      rw (found, list_remove_item)
