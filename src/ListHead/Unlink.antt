-- ===== src/ListHead/Unlink.antt =====
-- `list_remove` and `list_pop_head` of kernel/include/list.h.
use mjos.Base.{
  ℕ, ◌≡◌, refl, sym, ◌∙◌, ◌≢◌, List, [], ◌∷◌, ◌++◌, none, some, arith, ◌∉◌, Distinct,
  Distinct-middle, Distinct-left, Distinct-right, not_mem-append, not_mem-cons, ne_of_mem, true,
  false,
}
use mjos.Chain.{
  first_or, last_or, first_or-ne, last_or-ne, last_or-append, last_or-not_mem, first_or-not_mem,
  Backward, Forward, Backward-frame, Forward-frame, Backward-append, append-Backward,
  Forward-append, append-Forward, Forward-set_last, Backward-set_first,
}
use mjos.ListHead.{Entries, list_remove, list_pop_head, list_empty}
use mjos.ListHead.Ring.{nexts, prevs, IsRing}

-- What the removal of an entry between `p` and `q` does to each entry.
module _ (s : Entries) (n p q : ℕ) (prev : (s n).prev ≡ p) (next : (s n).next ≡ q) (pn : p ≢ n)
    (qn : q ≢ n) where
  remove-next : (a : ℕ) → a ≢ n → a ≢ p → (list_remove n s a).next ≡ (s a).next
  unfolding list_remove
  remove-next a x y = ground arith

  remove-prev : (a : ℕ) → a ≢ n → a ≢ q → (list_remove n s a).prev ≡ (s a).prev
  unfolding list_remove
  remove-prev a x y = ground arith

  remove_self : ((list_remove n s n).prev ≡ n) × ((list_remove n s n).next ≡ n)
  unfolding list_remove
  remove_self = (ground arith, ground arith)

  remove-before : (list_remove n s p).next ≡ q
  unfolding list_remove
  remove-before = ground arith

  remove-behind : (list_remove n s q).prev ≡ p
  unfolding list_remove
  remove-behind = ground arith

  remove-other : (a : ℕ) → a ≢ n → a ≢ p → a ≢ q → list_remove n s a ≡ s a
  unfolding list_remove
  remove-other a x y z = ground arith

-- The facts about an entry between `ys` and `zs` that its removal rests on.
record Between (s : Entries) (head : ℕ) (ys : List ℕ) (n : ℕ) (zs : List ℕ) : Type 0 where
  prev : (s n).prev ≡ last_or head ys
  next : (s n).next ≡ first_or zs head
  out_left : n ∉ head ∷ ys
  out_right : n ∉ zs
  before : last_or head ys ≢ n
  behind : first_or zs head ≢ n
  fore_left : Forward (nexts s) (head ∷ ys) n
  fore_right : Forward (nexts s) zs head
  back_left : Backward (prevs s) head ys
  back_right : Backward (prevs s) n zs
  distinct : Distinct (head ∷ ys ++ zs)

IsRing-Between :
    (s : Entries) (head : ℕ) (ys : List ℕ) (n : ℕ) (zs : List ℕ)
    → IsRing s head (ys ++ n ∷ zs)
    → Between s head ys n zs
IsRing-Between s head ys n zs r =
    let fore = Forward-append (nexts s) (head ∷ ys) (n ∷ zs) head r.forward in
    let back = Backward-append (prevs s) head ys (n ∷ zs) r.backward.1 in
    let apart = Distinct-middle n (head ∷ ys) zs r.distinct in
    let outs = not_mem-append n (head ∷ ys) zs apart.1 in
    let left = not_mem-cons n head ys outs.0 in
    record {
      prev = back.1.0;
      next = fore.1.0;
      out_left = outs.0;
      out_right = outs.1;
      before = λ e. last_or-ne n head ys left.1 left.0 (sym e);
      behind = λ e. first_or-ne n zs head outs.1 left.0 (sym e);
      fore_left = fore.0;
      fore_right = fore.1.1;
      back_left = back.0;
      back_right = back.1.1;
      distinct = apart.0;
    }

module _ (s : Entries) (head n : ℕ) where
  unlink-head :
      (ys zs : List ℕ)
      → IsRing s head (ys ++ n ∷ zs)
      → Between s head ys n zs
      → (list_remove n s head).prev ≡ last_or head (ys ++ zs)
  unlink-head ys [] r w =
      remove-behind s n (last_or head ys) head w.prev w.next w.before w.behind
      ∙ sym (last_or-append head ys [])
  unlink-head ys (z ∷ zs) r w =
      remove-prev s n (last_or head ys) z w.prev w.next w.before w.behind head
        (ground (arith, w.out_left)) (ground (arith, not_mem-append head ys (z ∷ zs) w.distinct.0))
      ∙ r.backward.0
      ∙ last_or-append head ys (n ∷ z ∷ zs)
      ∙ sym (last_or-append head ys (z ∷ zs))

  unlink-right :
      (ys zs : List ℕ)
      → Between s head ys n zs
      → Backward (prevs (list_remove n s)) (last_or head ys) zs
  unlink-right ys [] w = tt
  unlink-right ys (z ∷ zs) w =
      Backward-set_first (prevs s) (prevs (list_remove n s)) n (last_or head ys) z zs
        (remove-behind s n (last_or head ys) z w.prev w.next w.before w.behind)
        (λ a i.
          remove-prev s n (last_or head ys) z w.prev w.next w.before w.behind a
            (ne_of_mem a n (z ∷ zs) (ground (arith, i)) w.out_right)
            (ne_of_mem a z zs i (Distinct-right ys (z ∷ zs) w.distinct.1).0))
        w.back_right

  unlink-Forward :
      (ys zs : List ℕ)
      → Between s head ys n zs
      → Forward (nexts (list_remove n s)) (head ∷ (ys ++ zs)) head
  unlink-Forward ys zs w =
      append-Forward (nexts (list_remove n s)) (head ∷ ys) zs head
        (Forward-set_last (nexts s) (nexts (list_remove n s)) n (first_or zs head) head ys
          (remove-before s n (last_or head ys) (first_or zs head) w.prev w.next w.before w.behind)
          (λ a i k.
            remove-next s n (last_or head ys) (first_or zs head) w.prev w.next w.before w.behind a
              (ne_of_mem a n (head ∷ ys) i w.out_left) k)
          (Distinct-left (head ∷ ys) zs w.distinct) w.fore_left)
        (Forward-frame (nexts s) (nexts (list_remove n s)) zs head
          (λ a i.
            remove-next s n (last_or head ys) (first_or zs head) w.prev w.next w.before w.behind a
              (ne_of_mem a n zs i w.out_right)
              (ne_of_mem a (last_or head ys) zs i (
                last_or-not_mem head ys zs w.distinct.1
                  (not_mem-append head ys zs w.distinct.0).1)))
          w.fore_right)

  -- Removing an entry, wherever it stands, leaves the ring of the others in their order, and the
  -- entry as a ring of its own.
  pub list_remove-IsRing :
      (ys zs : List ℕ)
      → IsRing s head (ys ++ n ∷ zs)
      → IsRing (list_remove n s) head (ys ++ zs) × IsRing (list_remove n s) n []
  list_remove-IsRing ys zs r =
      let w = IsRing-Between s head ys n zs r in
      let a = first_or zs head in
      let b = last_or head ys in
      let self = remove_self s n b a w.prev w.next w.before w.behind in
      (
        record {
          forward = unlink-Forward ys zs w;
          backward = (
            unlink-head ys zs r w,
            append-Backward (prevs (list_remove n s)) head ys zs
                (Backward-frame (prevs s) (prevs (list_remove n s)) head ys
                  (λ c i.
                    remove-prev s n b a w.prev w.next w.before w.behind c
                      (ne_of_mem c n (head ∷ ys) (ground (arith, i)) w.out_left)
                      (ne_of_mem c a ys i (
                        first_or-not_mem ys zs head w.distinct.1
                          (not_mem-append head ys zs w.distinct.0).0)))
                  w.back_left)
                (unlink-right ys zs w),
          );
          distinct = w.distinct;
        },
        record { forward = (self.1, tt); backward = (self.0, tt); distinct = (refl, tt) },
      )

  -- The removal changes no entry outside the ring.
  pub list_remove-frame :
      (ys zs : List ℕ)
      → IsRing s head (ys ++ n ∷ zs)
      → (c : ℕ) → c ∉ head ∷ (ys ++ n ∷ zs)
      → list_remove n s c ≡ s c
  list_remove-frame ys zs r c out =
      let w = IsRing-Between s head ys n zs r in
      let outs = not_mem-append c ys (n ∷ zs) (ground arith) in
      let ne_head : c ≢ head = ground arith in
      remove-other s n (last_or head ys) (first_or zs head) w.prev w.next w.before w.behind c
        (ground (arith, outs.1)) (last_or-ne c head ys outs.0 ne_head)
        (first_or-ne c zs head (ground (arith, outs.1)) ne_head)

-- `list_empty` decides whether a ring has no entries.
pub list_empty-nil : (s : Entries) (head : ℕ) → IsRing s head [] → list_empty head s ≡ true
unfolding list_empty
list_empty-nil s head r = rw (r.forward.0) (ground arith)

pub list_empty-cons :
    (s : Entries) (head x : ℕ) (xs : List ℕ) → IsRing s head (x ∷ xs) → list_empty head s ≡ false
unfolding list_empty
list_empty-cons s head x xs r = rw (r.forward.0) (ground (arith, r.distinct.0))

-- `list_pop_head` takes the first entry off a ring that is not empty.
pub list_pop_head-cons :
    (s : Entries) (head x : ℕ) (xs : List ℕ)
    → IsRing s head (x ∷ xs)
    → list_pop_head head s ≡ (some x, list_remove x s)
unfolding list_pop_head
list_pop_head-cons s head x xs r = rw (list_empty-cons s head x xs r, r.forward.0)

pub list_pop_head-nil :
    (s : Entries) (head : ℕ) → IsRing s head [] → list_pop_head head s ≡ (none, s)
unfolding list_pop_head
list_pop_head-nil s head r = rw (list_empty-nil s head r)
