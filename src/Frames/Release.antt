-- ===== src/Frames/Release.antt =====
-- `frame_release` of kernel/memory/page.c.
use mjos.Base.{suc, ◌+◌, ◌≡◌, refl, ap, ◌∙◌, List, ◌∷◌, ◌++◌, arith, length, length-append}
use mjos.Base.Int.{pos, inc, dec}
use mjos.Pages.{pg_available, pg_kernel, pg_pool, pg_normal, Pfn, Page}
use mjos.Pages.Links.{update_self}
use mjos.Frames.{Memory, frame_release}
use mjos.Frames.Zones.{Holds, IsLoose}
use mjos.Frames.Steps.{Zones-swap, IsLoose-swap, set_loose, put_free, drop_occupied}

module _ (mem : Memory) (x : Pfn) (fs ms : List Pfn) where
  count-removed : (ys zs : List Pfn) → length (ys ++ x ∷ zs) ≡ suc (length (ys ++ zs))
  count-removed ys zs = omega (arith, length-append ys (x ∷ zs), length-append ys zs)

  -- Releasing an occupied kernel frame takes it off the list of occupied frames, wherever it
  -- stands there, and puts it in front of the direct-mapped free list.
  pub frame_release-kernel :
      (ys zs : List Pfn)
      → Holds mem fs ms (ys ++ x ∷ zs)
      → (mem.pages x).state ≡ pg_kernel
      → Holds (frame_release x mem) (x ∷ fs) ms (ys ++ zs)
  unfolding frame_release
  frame_release-kernel ys zs h s =
      let d = drop_occupied fs ms ys zs x h.zones in
      let z = set_loose x pg_available d.1 d.0 in
      rw s (record {
        zones = put_free x d.1 (ap (λ (p : Page). p.state) (update_self _ x _)) z;
        free_cnt = ap inc h.free_cnt ∙ ap pos (omega arith);
        occupied_cnt = ap dec (h.occupied_cnt ∙ ap pos (count-removed ys zs));
      })

  -- Releasing an occupied normal frame puts it in front of the free-mapped list.
  pub frame_release-normal :
      (ys zs : List Pfn)
      → Holds mem fs ms (ys ++ x ∷ zs)
      → (mem.pages x).state ≡ pg_normal
      → Holds (frame_release x mem) fs (x ∷ ms) (ys ++ zs)
  unfolding frame_release
  frame_release-normal ys zs h s =
      let d = drop_occupied fs ms ys zs x h.zones in
      let z = set_loose x pg_available d.1 d.0 in
      rw s (record {
        zones = Zones-swap (
            put_free x (IsLoose-swap d.1) (ap (λ (p : Page). p.state) (update_self _ x _))
              (Zones-swap z));
        free_cnt = ap inc h.free_cnt ∙ ap pos (omega arith);
        occupied_cnt = ap dec (h.occupied_cnt ∙ ap pos (count-removed ys zs));
      })

  -- Releasing a pool frame that is on none of the lists puts it in front of the direct-mapped
  -- free list.
  pub frame_release-pool :
      (os : List Pfn)
      → Holds mem fs ms os
      → IsLoose x fs ms os
      → (mem.pages x).state ≡ pg_pool
      → Holds (frame_release x mem) (x ∷ fs) ms os
  unfolding frame_release
  frame_release-pool os h l s = rw s (record {
    zones =
        put_free x l (ap (λ (p : Page). p.state) (update_self _ x _))
          (set_loose x pg_available l h.zones);
    free_cnt = ap inc h.free_cnt ∙ ap pos (omega arith);
    occupied_cnt = h.occupied_cnt;
  })

  -- Releasing a frame that is available already moves no frame and counts it once more: the
  -- counter of free frames is one too high from then on.
  pub frame_release-twice :
      (os : List Pfn)
      → Holds mem fs ms os
      → (mem.pages x).state ≡ pg_available
      → ((frame_release x mem).pages ≡ mem.pages)
        × ((frame_release x mem).free_cnt ≡ pos (suc (length fs + length ms)))
  unfolding frame_release
  frame_release-twice os h s = rw s (refl, ap inc h.free_cnt)
