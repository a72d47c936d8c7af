-- ===== src/EarlyHeap/Bump.antt =====
-- Allocation from the early heap: where an object lies, and that the loop ends.
use mjos.Base.{
  ℕ, zero, suc, ◌+◌, ◌*◌, ◌%◌, ◌^◌, ◌<◌, ◌≤◌, ◌≡◌, refl, ap, ◌∙◌, ◌⊎◌, inl, inr, leb, arith,
  Bool-cases, leb→le, true, false, some,
}
use mjos.EarlyHeap.{bump, EarlyHeap, page_size, early_kmalloc_init, grow, early_kmalloc}

-- What holds of the heap while it serves: it ends at a page boundary, not before the next object.
pub record IsServing (h : EarlyHeap) : Type 0 where
  pub inited : h.inited ≡ true
  pub available : h.available ≡ true
  pub aligned : h.heap_end % page_size ≡ 0
  pub room : h.heap_ptr ≤ h.heap_end

-- what the loop leaves in `heap_end`
record IsGrown (end ptr e : ℕ) : Type 0 where
  above : ptr < e
  kept : end ≤ e
  same_page : e % page_size ≡ end % page_size
  tight : (e ≡ end) ⊎ (e ≤ ptr + page_size)

-- Enough rounds of the loop end it, where the last page of the address space stays free.
grow-IsGrown :
    (fuel end ptr : ℕ)
    → ptr < end + fuel * page_size
    → ptr + page_size < 2 ^ 64
    → (e : ℕ) × (grow (suc fuel) end ptr ≡ some e) × IsGrown end ptr e
unfolding grow
grow-IsGrown zero end ptr f lim =
    let stop : leb end ptr ≡ false = ground arith in
    (
      end,
      rw stop refl,
      record { above = omega arith; kept = omega arith; same_page = refl; tight = inl refl },
    )
grow-IsGrown (suc fuel) end ptr f lim = elim (Bool-cases (leb end ptr)) [
  | inl t ↦
      let small = leb→le end ptr t in
      let (e, returns, g) = grow-IsGrown fuel (end + page_size) ptr (omega arith) lim in
      let fits : (end + page_size) % 2 ^ 64 ≡ end + page_size = omega arith in
      let g_tight = g.tight in
      let g_kept = g.kept in
      let g_page = g.same_page in
      (
        e,
        rw (t, fits) returns,
        record {
          above = g.above;
          kept = omega arith;
          same_page = omega arith;
          tight = inr (omega arith);
        },
      )
  | inr t ↦
      let beyond : ptr < end = ground (arith, t) in
      (
        end,
        rw t refl,
        record { above = beyond; kept = omega arith; same_page = refl; tight = inl refl },
      )
]

-- A heap that is set up once serves, from the end of the kernel on, unless the kernel reaches into the
-- last page of the address space.
pub early_kmalloc_init-IsServing :
    (kernel_end : ℕ) (h : EarlyHeap)
    → h.inited ≡ false
    → kernel_end + page_size ≤ 2 ^ 64
    → IsServing (early_kmalloc_init kernel_end h)
      × ((early_kmalloc_init kernel_end h).heap_ptr ≡ kernel_end)
unfolding early_kmalloc_init
early_kmalloc_init-IsServing kernel_end h e lim =
    rw e
      (record { inited = refl; available = refl; aligned = omega arith; room = omega arith }, refl)

-- While the heap serves, and unless the object would reach into the last page of the 64-bit address
-- space, `early_kmalloc` returns the first free address, moves it by the size, and
-- the heap serves on, its end behind the object, and either where it was or at most a page
-- behind the object. One round of the loop per page of the size, and two more, are enough.
pub early_kmalloc-IsServing :
    (h : EarlyHeap) (size fuel : ℕ)
    → size < fuel * page_size
    → h.heap_ptr + size + page_size < 2 ^ 64
    → IsServing h
    → (h' : EarlyHeap) × (early_kmalloc (suc fuel) size h ≡ some (some h.heap_ptr, h'))
      × IsServing h'
      × (h'.heap_ptr ≡ h.heap_ptr + size)
      × (h'.heap_ptr < h'.heap_end)
      × ((h'.heap_end ≡ h.heap_end) ⊎ (h'.heap_end ≤ h'.heap_ptr + page_size))
unfolding early_kmalloc
early_kmalloc-IsServing h size fuel f lim s =
    let start_room = s.room in
    let page = s.aligned in
    let (e, returns, g) = grow-IsGrown fuel h.heap_end (h.heap_ptr + size) (omega arith) lim in
    let fits : (h.heap_ptr + size) % 2 ^ 64 ≡ h.heap_ptr + size = omega arith in
    let above = g.above in
    let same_page = g.same_page in
    (
      record h { heap_ptr = (h.heap_ptr + size) % 2 ^ 64; heap_end = e },
      rw (s.inited, s.available)
          (ap (bump (record h { inited = true; available = true }) size)
            (ap (λ p. grow (suc fuel) h.heap_end p) fits ∙ returns)),
      record {
        inited = s.inited;
        available = s.available;
        aligned = same_page ∙ page;
        room = omega arith;
      },
      fits,
      omega arith,
      rw fits (g.tight),
    )
