-- ===== src/ListHead/Insert.antt =====
-- `list_add`, `list_add_tail` and `list_insert_before` of kernel/include/list.h.
use mjos.Base.{
  ℕ, ◌≡◌, sym, ◌∙◌, ◌≢◌, List, [], ◌∷◌, ◌++◌, append-nil, arith, ◌∉◌, Distinct-left, Distinct-right,
  middle-Distinct, not_mem-append, ne_of_mem,
}
use mjos.Chain.{
  first_or, last_or, first_or-ne, last_or-ne, last_or-append, last_or-not_mem, first_or-not_mem,
  Backward, Forward, Backward-frame, Forward-frame, Backward-append, append-Backward,
  Forward-append, append-Forward, Forward-set_last, Backward-set_first,
}
use mjos.ListHead.{Entries, list_add_between, list_add, list_add_tail, list_insert_before}
use mjos.ListHead.Ring.{nexts, prevs, IsRing}

-- What an insertion between `p` and `q` does to each entry.
module _ (s : Entries) (n p q : ℕ) (np : n ≢ p) (nq : n ≢ q) where
  abbrev added : Entries
  added = list_add_between n p q s

  add-next : (a : ℕ) → a ≢ n → a ≢ p → (added a).next ≡ (s a).next
  unfolding list_add_between
  add-next a x y = ground arith

  add-prev : (a : ℕ) → a ≢ n → a ≢ q → (added a).prev ≡ (s a).prev
  unfolding list_add_between
  add-prev a x y = ground arith

  add-new : ((added n).prev ≡ p) × ((added n).next ≡ q)
  unfolding list_add_between
  add-new = (ground arith, ground arith)

  add-before : (added p).next ≡ n
  unfolding list_add_between
  add-before = ground arith

  add-behind : (added q).prev ≡ n
  unfolding list_add_between
  add-behind = ground arith

-- An insertion changes no entry but the new one and its two neighbours.
pub add_between-frame :
    (s : Entries) (n p q a : ℕ) → a ≢ n → a ≢ p → a ≢ q → list_add_between n p q s a ≡ s a
unfolding list_add_between
add_between-frame s n p q a x y z = ground arith

module _ (s : Entries) (n head : ℕ) where
  -- the entry before and the entry behind the place between `ys` and `zs`
  abbrev before : List ℕ → ℕ
  before ys = last_or head ys

  abbrev behind : List ℕ → ℕ
  behind zs = first_or zs head

  abbrev inserted : List ℕ → List ℕ → Entries
  inserted ys zs = list_add_between n (before ys) (behind zs) s

  module _ (ys zs : List ℕ) (out : n ∉ head ∷ ys ++ zs) (r : IsRing s head (ys ++ zs)) where
    new_left : n ∉ head ∷ ys
    new_left = ground (arith, not_mem-append n ys zs)

    new_right : n ∉ zs
    new_right = ground (arith, not_mem-append n ys zs)

    ne_before : n ≢ before ys
    ne_before = last_or-ne n head ys (ground (arith, new_left)) (ground (arith, new_left))

    ne_behind : n ≢ behind zs
    ne_behind = first_or-ne n zs head new_right (ground (arith, new_left))

    insert-Forward : Forward (nexts (inserted ys zs)) (head ∷ (ys ++ n ∷ zs)) head
    insert-Forward =
        let fore = Forward-append (nexts s) (head ∷ ys) zs head r.forward in
        append-Forward (nexts (inserted ys zs)) (head ∷ ys) (n ∷ zs) head
          (Forward-set_last (nexts s) (nexts (inserted ys zs)) (behind zs) n head ys
            (add-before s n (before ys) (behind zs) ne_before ne_behind)
            (λ a i k.
              add-next s n (before ys) (behind zs) ne_before ne_behind a
                (ne_of_mem a n (head ∷ ys) i new_left) k)
            (Distinct-left (head ∷ ys) zs r.distinct) fore.0)
          (
            (add-new s n (before ys) (behind zs) ne_before ne_behind).1,
            Forward-frame (nexts s) (nexts (inserted ys zs)) zs head
                (λ a i.
                  add-next s n (before ys) (behind zs) ne_before ne_behind a
                    (ne_of_mem a n zs i new_right)
                    (ne_of_mem a (before ys) zs i (
                      last_or-not_mem head ys zs r.distinct.1
                        (not_mem-append head ys zs r.distinct.0).1)))
                fore.1,
          )

    insert-left : Backward (prevs (inserted ys zs)) head ys
    insert-left =
        let back = Backward-append (prevs s) head ys zs r.backward.1 in
        Backward-frame (prevs s) (prevs (inserted ys zs)) head ys
          (λ a i.
            add-prev s n (before ys) (behind zs) ne_before ne_behind a
              (ne_of_mem a n (head ∷ ys) (ground (arith, i)) new_left)
              (ne_of_mem a (behind zs) ys i (
                first_or-not_mem ys zs head r.distinct.1
                  (not_mem-append head ys zs r.distinct.0).0)))
          back.0

  insert-right :
      (ys zs : List ℕ)
      → n ∉ head ∷ ys ++ zs
      → IsRing s head (ys ++ zs)
      → Backward (prevs (inserted ys zs)) n zs
  insert-right ys [] out r = tt
  insert-right ys (z ∷ zs) out r =
      let back = Backward-append (prevs s) head ys (z ∷ zs) r.backward.1 in
      let apart = Distinct-right ys (z ∷ zs) r.distinct.1 in
      Backward-set_first (prevs s) (prevs (inserted ys (z ∷ zs))) (before ys) n z zs
        (add-behind s n (before ys) z (ne_before ys (z ∷ zs) out r) (ne_behind ys (z ∷ zs) out r))
        (λ a i.
          add-prev s n (before ys) z (ne_before ys (z ∷ zs) out r) (ne_behind ys (z ∷ zs) out r) a
            (ne_of_mem a n (z ∷ zs) (ground (arith, i)) (new_right ys (z ∷ zs) out r))
            (ne_of_mem a z zs i apart.0))
        back.1

  insert-head :
      (ys zs : List ℕ)
      → n ∉ head ∷ ys ++ zs
      → IsRing s head (ys ++ zs)
      → (inserted ys zs head).prev ≡ last_or head (ys ++ n ∷ zs)
  insert-head ys [] out r =
      add-behind s n (before ys) head (ne_before ys [] out r) (ne_behind ys [] out r)
      ∙ sym (last_or-append head ys (n ∷ []))
  insert-head ys (z ∷ zs) out r =
      add-prev s n (before ys) z (ne_before ys (z ∷ zs) out r) (ne_behind ys (z ∷ zs) out r) head
        (ground (arith, new_left ys (z ∷ zs) out r))
        (ground (arith, not_mem-append head ys (z ∷ zs) r.distinct.0))
      ∙ r.backward.0
      ∙ last_or-append head ys (z ∷ zs)
      ∙ sym (last_or-append head ys (n ∷ z ∷ zs))

  -- Inserting between two neighbours puts the entry between them.
  pub insert-IsRing :
      (ys zs : List ℕ)
      → n ∉ head ∷ ys ++ zs
      → IsRing s head (ys ++ zs)
      → IsRing (inserted ys zs) head (ys ++ n ∷ zs)
  insert-IsRing ys zs out r = record {
    forward = insert-Forward ys zs out r;
    backward = (
      insert-head ys zs out r,
      append-Backward (prevs (inserted ys zs)) head ys (n ∷ zs) (insert-left ys zs out r) (
        (add-new s n (before ys) (behind zs) (ne_before ys zs out r) (ne_behind ys zs out r)).0,
        insert-right ys zs out r,
      ),
    );
    distinct = middle-Distinct n (head ∷ ys) zs r.distinct out;
  }

  -- `list_add` puts the entry first.
  pub list_add-IsRing :
      (xs : List ℕ) → n ∉ head ∷ xs → IsRing s head xs → IsRing (list_add n head s) head (n ∷ xs)
  unfolding list_add
  list_add-IsRing xs out r = rw (r.forward.0) (insert-IsRing [] xs out r)

  -- `list_add_tail` puts the entry last.
  pub list_add_tail-IsRing :
      (xs : List ℕ)
      → n ∉ head ∷ xs
      → IsRing s head xs
      → IsRing (list_add_tail n head s) head (xs ++ n ∷ [])
  unfolding list_add_tail
  list_add_tail-IsRing xs out r =
      rw (r.backward.0) (insert-IsRing xs [] (rw append-nil out) (rw append-nil r))

-- `list_add` and `list_add_tail` change no entry outside the ring and the new entry.
pub list_add-frame :
    (s : Entries) (n head : ℕ) (xs : List ℕ)
    → IsRing s head xs
    → (a : ℕ) → a ∉ n ∷ head ∷ xs
    → (list_add n head s a ≡ s a) × (list_add_tail n head s a ≡ s a)
unfolding list_add list_add_tail
list_add-frame s n head xs r a out =
    let ne_n : a ≢ n = ground arith in
    let ne_head : a ≢ head = ground arith in
    let not_in : a ∉ xs = ground arith in
    (
      add_between-frame s n head (s head).next a ne_n ne_head
          (rw (r.forward.0) (first_or-ne a xs head not_in ne_head)),
      add_between-frame s n (s head).prev head a ne_n
          (rw (r.backward.0) (last_or-ne a head xs not_in ne_head)) ne_head,
    )

-- The link back from the place between `ys` and `zs`.
prev-place :
    (s : Entries) (head : ℕ) (ys zs : List ℕ)
    → IsRing s head (ys ++ zs)
    → (s (first_or zs head)).prev ≡ last_or head ys
prev-place s head ys [] r = rw append-nil at r.backward.0
prev-place s head ys (z ∷ zs) r = (Backward-append (prevs s) head ys (z ∷ zs) r.backward.1).1.0

-- For a new entry outside a ring of `ys` and then `zs`: `list_insert_before` the first one of `zs`, or
-- before the head where `zs` is empty, makes it a ring of `ys`, the new entry and `zs`, with the links of
-- both directions.
pub list_insert_before-IsRing :
    (s : Entries) (n head : ℕ) (ys zs : List ℕ)
    → n ∉ head ∷ ys ++ zs
    → IsRing s head (ys ++ zs)
    → IsRing (list_insert_before n (first_or zs head) s) head (ys ++ n ∷ zs)
unfolding list_insert_before list_add_tail
list_insert_before-IsRing s n head ys zs out r =
    rw (prev-place s head ys zs r) (insert-IsRing s n head ys zs out r)
