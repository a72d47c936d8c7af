-- ===== src/Kmalloc.antt =====
-- `kmalloc` and its kin of kernel/memory/kmalloc.c: thirteen caches of slabs, and the size in front of
-- each object. The sizes are kept by the address of the object, apart from the offsets in free objects,
-- which stand in the same bytes while the object is free; `bytes` is what the objects hold. `none` is
-- `die`, or what the slab allocator fails with.
pub mod Classes
pub mod Free
mod Tests
use mjos.Base.{
  ℕ, zero, suc, ◌+◌, ◌-◌, ◌*◌, ◌^◌, ◌%◌, ◌==◌, leb, if◌then◌else◌, Bool, true, false, Option, none,
  some, List, [], ◌∷◌, get_elem?, take,
}
use mjos.CString.{Mem, store, memcpy}
use mjos.Slab.{Cache, Slabs, cache_init, cache_obj_alloc, cache_obj_release}

-- The sizes of `kmalloc_info`.
abbrev pub kmalloc_info : List ℕ
kmalloc_info =
    8 ∷ 16 ∷ 32 ∷ 64 ∷ 96 ∷ 128 ∷ 192 ∷ 256 ∷ 512 ∷ 1024 ∷ 2048 ∷ 4096 ∷ 8192 ∷ 16384 ∷ []

-- `KMALLOC_CACHE_LENGTH`
abbrev pub kmalloc_cache_length : ℕ
kmalloc_cache_length = 13

-- The loop of `get_kmalloc_cache` over the first `n` classes, from the number `i` on.
unfoldable pub first_class : ℕ → ℕ → List ℕ → ℕ → Option ℕ
first_class zero i sizes size = none
first_class (suc n) i [] size = none
first_class (suc n) i (c ∷ sizes) size =
    let rest = first_class n (i + 1) sizes size in if leb size c then some i else rest

-- `get_kmalloc_cache`: the number of the cache
unfoldable pub get_kmalloc_cache : ℕ → Option ℕ
unfolding first_class
get_kmalloc_cache size = first_class kmalloc_cache_length 0 kmalloc_info size

-- `kmalloc_cache` and the memory
pub record Heap : Type 0 where
  pub caches : ℕ → Cache
  pub sys : Slabs
  pub sizes : ℕ → ℕ
  pub bytes : Mem

unfoldable pub set_cache : (ℕ → Cache) → ℕ → Cache → ℕ → Cache
set_cache caches i c j = if j == i then c else caches j

abbrev pub size_at : List ℕ → ℕ → ℕ
size_at sizes i = elim (get_elem? sizes i) [ none ↦ 0 | some c ↦ c ]

-- `kmalloc_init`
unfoldable pub kmalloc_init : ℕ → Cache
unfolding cache_init
kmalloc_init i = cache_init (size_at kmalloc_info i)

-- `kmalloc_s` with the cache found
unfoldable pub alloc_in : ℕ → ℕ → ℕ → Heap → Option (ℕ × Heap)
alloc_in fuel kernel_pml4 i h = elim (cache_obj_alloc fuel kernel_pml4 (h.caches i) h.sys) [
  | none ↦ none
  | some (ret, c, sys') ↦ some (ret, record h { caches = set_cache h.caches i c; sys = sys' })
]

-- `kmalloc_s`
unfoldable pub kmalloc_s : ℕ → ℕ → ℕ → Heap → Option (ℕ × Heap)
kmalloc_s fuel kernel_pml4 size h = elim (get_kmalloc_cache size) [
  | none ↦ none
  | some i ↦ alloc_in fuel kernel_pml4 i h
]

-- `kfree_s` with the cache found
unfoldable pub release_in : ℕ → ℕ → ℕ → ℕ → Heap → Option Heap
release_in fuel kernel_pml4 i addr h =
    elim (cache_obj_release fuel kernel_pml4 (h.caches i) addr h.sys) [
      | none ↦ none
      | some (c, sys') ↦ some (record h { caches = set_cache h.caches i c; sys = sys' })
    ]

-- `kfree_s`
unfoldable pub kfree_s : ℕ → ℕ → ℕ → ℕ → Heap → Option Heap
kfree_s fuel kernel_pml4 size addr h = if addr == 0 then some h else elim (get_kmalloc_cache size) [
  | none ↦ none
  | some i ↦ release_in fuel kernel_pml4 i addr h
]

-- The size of an object, in front of it.
unfoldable pub set_size : ℕ → ℕ → Heap → Heap
unfolding store
set_size ptr size h = record h { sizes = store h.sizes ptr size }

-- The addition of `sizeof(size_t)` to a size or an address, and its subtraction from an address, in 64
-- bits.
abbrev pub with_header : ℕ → ℕ
with_header size = (size + 8) % 2 ^ 64

abbrev pub header_of : ℕ → ℕ
header_of ptr = (ptr + (2 ^ 64 - 8)) % 2 ^ 64

-- `kmalloc`
unfoldable pub kmalloc : ℕ → ℕ → ℕ → Heap → Option (ℕ × Heap)
kmalloc fuel kernel_pml4 size h = elim (kmalloc_s fuel kernel_pml4 (with_header size) h) [
  | none ↦ none
  | some (ptr, h') ↦ some (with_header ptr, set_size ptr (with_header size) h')
]

-- `kfree`
unfoldable pub kfree : ℕ → ℕ → ℕ → Heap → Option Heap
kfree fuel kernel_pml4 ptr h = kfree_s fuel kernel_pml4 (h.sizes (header_of ptr)) (header_of ptr) h

-- `old_cache == new_cache`, where both may be `NULL`
abbrev pub same_cache : Option ℕ → Option ℕ → Bool
same_cache none none = true
same_cache none (some j) = false
same_cache (some i) none = false
same_cache (some i) (some j) = i == j

-- The part of `krealloc` that moves the object: from `ptr` to `new_ptr`, with the size in front.
unfoldable pub move_object : ℕ → ℕ → ℕ → ℕ → ℕ → ℕ → Heap → Option (ℕ × Heap)
unfolding memcpy
move_object fuel kernel_pml4 ptr new_ptr old_size size h =
    let copied = record h { bytes = memcpy h.bytes new_ptr ptr (old_size % 2 ^ 16) } in
    elim (kfree_s fuel kernel_pml4 old_size ptr (set_size new_ptr size copied)) [
      | none ↦ none
      | some h' ↦ some (with_header new_ptr, h')
    ]

-- `krealloc`
unfoldable pub krealloc : ℕ → ℕ → ℕ → ℕ → Heap → Option (ℕ × Heap)
unfolding move_object
krealloc fuel kernel_pml4 address wanted h =
    let size = with_header wanted in
    let ptr = header_of address in
    let old_size = h.sizes ptr in
    if same_cache (get_kmalloc_cache old_size) (get_kmalloc_cache size)
    then some (with_header ptr, set_size ptr size h)
    else elim (kmalloc_s fuel kernel_pml4 size h) [
      | none ↦ none
      | some (new_ptr, h') ↦ move_object fuel kernel_pml4 ptr new_ptr old_size size h'
    ]

-- `malloc`, `calloc`, `realloc` and `free` of kernel/libc/stdlib/malloc.c
unfoldable pub malloc : ℕ → ℕ → ℕ → Heap → Option (ℕ × Heap)
malloc fuel kernel_pml4 size h = kmalloc fuel kernel_pml4 size h

unfoldable pub free : ℕ → ℕ → ℕ → Heap → Option Heap
free fuel kernel_pml4 addr h = if addr == 0 then some h else kfree fuel kernel_pml4 addr h

unfoldable pub calloc : ℕ → ℕ → ℕ → ℕ → Heap → Option (ℕ × Heap)
calloc fuel kernel_pml4 num size h = malloc fuel kernel_pml4 (num * size % 2 ^ 64) h

unfoldable pub realloc : ℕ → ℕ → ℕ → ℕ → Heap → Option (ℕ × Heap)
realloc fuel kernel_pml4 addr size h = krealloc fuel kernel_pml4 addr size h
