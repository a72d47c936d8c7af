-- ===== src/Paging/Kernel.antt =====
-- Kernel pages: what `kernel_page_alloc` maps and `kernel_page_release` takes out, and the direct map.
use mjos.Base.{
  ℕ, suc, ◌+◌, ◌*◌, ◌/◌, ◌%◌, ◌^◌, ◌<◌, ◌≡◌, refl, ap, ◌∙◌, true, false, ◌||◌, none, some, arith,
  ◌∉◌,
}
use mjos.Base.Bits.{bit_or-zero}
use mjos.Pages.{PageState}
use mjos.Frames.{Memory, frame_alloc, frame_release, is_kernel, is_pool}
use mjos.Paging.{
  Words, Vm, virtual, absolute, present, entry_addr, page_translate, put_entry,
  page_table_set_entry,
}
use mjos.Paging.Search.{phys_to_virt}
use mjos.Paging.Walk.{leaf, upper, has_tables, leaf_frame}
use mjos.Paging.Mapping.{set_entry-leaf, put_entry-own}
use mjos.Paging.Alloc.{
  virt_to_phys, add_kernel_page, kernel_rounds, kernel_pages_alloc, kernel_page_alloc,
  kernel_pages_release, kernel_page_release,
}

-- The direct map and back: where `phys_to_virt` has an address for a physical one, `virt_to_phys` takes
-- that address back to it, whatever the tables of the current process are.
pub phys_to_virt-virt_to_phys :
    (t : Words) (cr3 pa v : ℕ) → phys_to_virt pa ≡ some v → virt_to_phys t cr3 v ≡ some pa
unfolding phys_to_virt virt_to_phys virtual absolute
phys_to_virt-virt_to_phys t cr3 pa v h = ground arith

leaf_frame-page : (f : ℕ) → leaf_frame (f * 4096 + 7) (virtual (f * 4096)) ≡ some (f * 4096)
unfolding leaf_frame present entry_addr virtual
leaf_frame-page f =
    let odd : (f * 4096 + 7) % 2 ≡ 1 = omega arith in
    let addr : (f * 4096 + 7) / 4096 * 4096 ≡ f * 4096 = omega arith in
    let offset : (f * 4096 + 0xffffffff80000000) % 2 ^ 64 % 4096 ≡ 0 = omega arith in
    rw odd (rw addr (rw offset (ap some (bit_or-zero (f * 4096)))))

leaf_frame-zero : (v : ℕ) → leaf_frame 0 v ≡ none
unfolding leaf_frame present
leaf_frame-zero v = refl

add_kernel_page-step :
    (fuel f top : ℕ) (state : PageState) (frames' : Memory) (vm vm' : Vm)
    → frame_alloc state vm.frames ≡ some (f, frames')
    → page_table_set_entry fuel top
        (virtual (f * 4096 % 2 ^ 32))
        (f * 4096 % 2 ^ 32 + 7)
        true
        (record vm { frames = frames' })
      ≡ some vm'
    → add_kernel_page fuel state top vm ≡ some (f, vm')
unfolding add_kernel_page
add_kernel_page-step fuel f top state frames' vm vm' taken entered =
    rw (taken, add_kernel_page) (rw entered refl)

alloc-step :
    (fuel f top : ℕ) (state : PageState) (vm vm' : Vm)
    → is_kernel state || is_pool state ≡ true
    → add_kernel_page fuel state top vm ≡ some (f, vm')
    → kernel_page_alloc fuel state top vm ≡ some (f, vm')
unfolding kernel_page_alloc kernel_pages_alloc kernel_rounds
alloc-step fuel f top state vm vm' allowed added =
    rw (allowed, kernel_page_alloc, kernel_pages_alloc) (rw added refl)

release-step :
    (fuel f top : ℕ) (vm vm' : Vm)
    → page_table_set_entry fuel top
        (virtual (f * 4096 % 2 ^ 32))
        0
        false
        (record vm { frames = frame_release f vm.frames })
      ≡ some vm'
    → kernel_page_release fuel top f vm ≡ some vm'
unfolding kernel_page_release kernel_pages_release
release-step fuel f top vm vm' entered =
    rw (entered, kernel_page_release, kernel_pages_release) refl

-- one page, where every table for its address is present
add_kernel_page-leaf :
    (fuel f top : ℕ) (state : PageState) (frames' : Memory) (vm : Vm)
    → frame_alloc state vm.frames ≡ some (f, frames')
    → f < 2 ^ 20
    → has_tables 3 vm.words top (virtual (f * 4096)) ≡ true
    → add_kernel_page (suc fuel) state top vm
      ≡ some (
        f,
        put_entry
            (leaf 3 vm.words top (virtual (f * 4096)))
            (virtual (f * 4096))
            (f * 4096 + 7)
            (record vm { frames = frames' }),
      )
add_kernel_page-leaf fuel f top state frames' vm taken small h =
    let psys : f * 4096 % 2 ^ 32 ≡ f * 4096 = omega arith in
    let held = record vm { frames = frames' } in
    let p = leaf 3 vm.words top (virtual (f * 4096)) in
    add_kernel_page-step (suc fuel) f top state frames' vm
      (put_entry p (virtual (f * 4096)) (f * 4096 + 7) held) taken
      (ap (λ a. page_table_set_entry (suc fuel) top (virtual a) (a + 7) true held) psys
        ∙ set_entry-leaf fuel top (virtual (f * 4096)) (f * 4096 + 7) true held h)

-- A kernel page: where the frame allocator has a frame below 4 GiB, every table for its address in
-- the direct map is present, and the last one is none of those above it, `kernel_page_alloc` returns the
-- frame, with the frames as the allocator leaves them, and from then on `page_translate` takes the
-- address in the direct map to the frame.
pub kernel_page_alloc-maps :
    (fuel f top : ℕ) (state : PageState) (frames' : Memory) (vm : Vm)
    → is_kernel state || is_pool state ≡ true
    → frame_alloc state vm.frames ≡ some (f, frames')
    → f < 2 ^ 20
    → top % 4096 ≡ 0
    → has_tables 3 vm.words top (virtual (f * 4096)) ≡ true
    → leaf 3 vm.words top (virtual (f * 4096)) ∉ upper 3 vm.words top (virtual (f * 4096))
    → (vm' : Vm) × (kernel_page_alloc (suc fuel) state top vm ≡ some (f, vm'))
      × (vm'.frames ≡ frames')
      × (page_translate vm'.words top (virtual (f * 4096)) ≡ some (f * 4096))
unfolding put_entry
kernel_page_alloc-maps fuel f top state frames' vm allowed taken small ht h out =
    let v = virtual (f * 4096) in
    let held = record vm { frames = frames' } in
    (
      put_entry (leaf 3 vm.words top v) v (f * 4096 + 7) held,
      alloc-step (suc fuel) f top state vm _ allowed
          (add_kernel_page-leaf fuel f top state frames' vm taken small h),
      refl,
      put_entry-own top v v (f * 4096 + 7) held ht h out refl ∙ leaf_frame-page f,
    )

-- Where every table for the address of a frame below 4 GiB is present, and the last one is none of
-- those above it, `kernel_page_release` gives the frame back and takes its page out of the tables: from
-- then on `page_translate` finds nothing there.
pub kernel_page_release-unmaps :
    (fuel f top : ℕ) (vm : Vm)
    → f < 2 ^ 20
    → top % 4096 ≡ 0
    → has_tables 3 vm.words top (virtual (f * 4096)) ≡ true
    → leaf 3 vm.words top (virtual (f * 4096)) ∉ upper 3 vm.words top (virtual (f * 4096))
    → (vm' : Vm) × (kernel_page_release (suc fuel) top f vm ≡ some vm')
      × (vm'.frames ≡ frame_release f vm.frames)
      × (page_translate vm'.words top (virtual (f * 4096)) ≡ none)
unfolding put_entry
kernel_page_release-unmaps fuel f top vm small ht h out =
    let v = virtual (f * 4096) in
    let held = record vm { frames = frame_release f vm.frames } in
    let psys : f * 4096 % 2 ^ 32 ≡ f * 4096 = omega arith in
    (
      put_entry (leaf 3 vm.words top v) v 0 held,
      release-step (suc fuel) f top vm _ (
          ap (λ a. page_table_set_entry (suc fuel) top (virtual a) 0 false held) psys
          ∙ set_entry-leaf fuel top v 0 false held h),
      refl,
      put_entry-own top v v 0 held ht h out refl ∙ leaf_frame-zero v,
    )
