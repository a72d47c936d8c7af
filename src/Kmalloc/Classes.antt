-- ===== src/Kmalloc/Classes.antt =====
-- The size classes of `kmalloc`.
use mjos.Base.{
  ℕ, zero, suc, ◌+◌, ◌≤◌, ◌<◌, ◌≡◌, inl, inr, refl, ap, ◌∙◌, leb, Option, none, some, List, [], ◌∷◌,
  arith, length, Bool-cases, eq-cases,
}
use mjos.Kmalloc.{kmalloc_info, kmalloc_cache_length, first_class, get_kmalloc_cache, size_at}

-- The cache that a size gets: one whose objects are large enough while those of every smaller one are not, or
-- none where the size is above 8192.
unfoldable pub IsLeast : ℕ → Option ℕ → Type 0
IsLeast size none = 8192 < size
IsLeast size (some i) =
    (i < kmalloc_cache_length)
    × (size ≤ size_at kmalloc_info i)
    × ((j : ℕ) → j < i → size_at kmalloc_info j < size)

module _ (size : ℕ) (full : List ℕ) where
  -- what the loop finds among the first `m` classes
  Found : ℕ → Option ℕ → Type 0
  Found m none = (j : ℕ) → j < m → size_at full j < size
  Found m (some i) = (i < m) × (size ≤ size_at full i) × ((j : ℕ) → j < i → size_at full j < size)

  first_class-Found :
      (n i m : ℕ) (sizes : List ℕ)
      → i + n ≡ m
      → n ≤ length sizes
      → ((j : ℕ) → size_at full (i + j) ≡ size_at sizes j)
      → ((j : ℕ) → j < i → size_at full j < size)
      → Found m (first_class n i sizes size)
  unfolding first_class Found
  first_class-Found zero i m sizes e long rest before = λ j h. before j (omega arith)
  first_class-Found (suc n) i m [] e long rest before = absurd (omega arith)
  first_class-Found (suc n) i m (c ∷ sizes) e long rest before =
      let here : size_at full i ≡ c = ap (size_at full) (omega arith) ∙ rest 0 in
      elim (Bool-cases (leb size c)) [
        | inl fits ↦ rw fits (omega arith, ground (arith, here), before)
        | inr small ↦ rw small (
            first_class-Found n (i + 1) m sizes (omega arith) (omega arith)
              (λ j. ap (size_at full) (omega arith) ∙ rest (suc j))
              (λ j h. elim (eq-cases j i) [
                | inl same ↦ rw same (ground (arith, here))
                | inr ne ↦ before j (omega arith)
              ]))
      ]

Found-IsLeast :
    (size : ℕ) (r : Option ℕ) → Found size kmalloc_info kmalloc_cache_length r → IsLeast size r
unfolding Found IsLeast
Found-IsLeast size none h = h 12 (omega arith)
Found-IsLeast size (some i) h = h

-- `get_kmalloc_cache` finds the cache of the smallest objects that are large enough, and none exactly for
-- the sizes above 8192, although the table of sizes goes up to 16384.
pub get_kmalloc_cache-IsLeast : (size : ℕ) → IsLeast size (get_kmalloc_cache size)
unfolding get_kmalloc_cache
get_kmalloc_cache-IsLeast size = Found-IsLeast size (get_kmalloc_cache size) (
    first_class-Found size kmalloc_info kmalloc_cache_length 0 kmalloc_cache_length kmalloc_info
      refl (omega arith) (λ j. ap (size_at kmalloc_info) (omega arith))
      (λ j h. absurd (omega arith)))
