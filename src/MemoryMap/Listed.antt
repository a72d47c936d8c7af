-- ===== src/MemoryMap/Listed.antt =====
-- Which frames `page_init` lists, and that the lists are those that the frame allocator keeps.
use mjos.Base.{
  ℕ, zero, suc, ◌+◌, ◌%◌, ◌^◌, ◌≤◌, ◌<◌, ◌≡◌, inl, inr, refl, ap, ◌∙◌, ltb, leb, ◌&&◌,
  if◌then◌else◌, Bool, true, false, Bool-cases, eq-cases, List, [], ◌∷◌, ◌∈◌, ◌∉◌, arith, has,
  ne_of_mem,
}
use mjos.Base.Int.{pos, inc}
use mjos.Pages.{
  PageState, pg_available, pg_dma, pg_reserve, Pfn, Page, Pages, PageList, nopage, update, set_next,
  set_prev, set_state,
}
use mjos.Pages.Links.{update_self, update-ne}
use mjos.Frames.{Memory}
use mjos.Frames.Zones.{Zones, Holds, IsLoose, IsFreeList-frame, IsOccupiedList-frame}
use mjos.Frames.Steps.{Zones-swap, IsLoose-swap, put_free}
use mjos.MemoryMap.{is_dma, is_direct, list_frame, init_frame}

-- The frames that go on the list of direct-mapped frames: from 16 MiB up to 2 GiB. From 4 GiB on, the
-- frames in the same place of each 4 GiB go on the free-mapped list.
abbrev pub goes_free : ℕ → Bool
goes_free i = leb 4096 i && ltb i (2 ^ 19)

abbrev pub goes_map : ℕ → Bool
goes_map i = leb (2 ^ 20) i && (leb 4096 (i % 2 ^ 20) && ltb (i % 2 ^ 20) (2 ^ 19))

is_dma-goes : (i : ℕ) → is_dma i ≡ true → (goes_free i ≡ false) × (goes_map i ≡ false)
unfolding is_dma
is_dma-goes i e = (ground (arith, e), ground (arith, e))

is_direct-goes :
    (i : ℕ) → is_dma i ≡ false → is_direct i ≡ true → (goes_free i ≡ true) × (goes_map i ≡ false)
unfolding is_dma is_direct
is_direct-goes i e d = (ground (arith, e, d), ground (arith, e, d))

not_direct-goes :
    (i : ℕ) → is_dma i ≡ false → is_direct i ≡ false → (goes_free i ≡ false) × (goes_map i ≡ true)
unfolding is_dma is_direct
not_direct-goes i e d = (ground (arith, e, d), ground (arith, e, d))

-- The lists of frames that `n` frames from `i` on lead to.
unfoldable pub add_free : ℕ → ℕ → List Pfn → List Pfn
add_free zero i fs = fs
add_free (suc n) i fs = add_free n (i + 1) (if goes_free i then i ∷ fs else fs)

unfoldable pub add_map : ℕ → ℕ → List Pfn → List Pfn
add_map zero i ms = ms
add_map (suc n) i ms = add_map n (i + 1) (if goes_map i then i ∷ ms else ms)

abbrev pub Below : ℕ → List Pfn → Type 0
Below b xs = (a : Pfn) → a ∈ xs → a < b

-- The allocator's invariant, with every listed frame before the frame `b`.
pub record HoldsBelow (b : ℕ) (mem : Memory) (fs ms : List Pfn) : Type 0 where
  pub holds : Holds mem fs ms []
  pub free_below : Below b fs
  pub map_below : Below b ms

not_mem-of_below : (b i : ℕ) (xs : List Pfn) → Below b xs → b ≤ i → i ∉ xs
not_mem-of_below b i xs below h = elim (Bool-cases (has i xs)) [
  | inl e ↦ absurd (let k = below i e in omega arith)
  | inr e ↦ e
]

pub loose :
    (b i : ℕ) (fs ms : List Pfn) → Below b fs → Below b ms → b ≤ i → i < nopage → IsLoose i fs ms []
loose b i fs ms hf hm h lim = record {
  page = omega arith;
  not_free = not_mem-of_below b i fs hf h;
  not_map = not_mem-of_below b i ms hm h;
  not_occupied = refl;
}

-- A frame on no list may change.
pub update-loose :
    (m : Pages) (f p o : PageList) (fs ms os : List Pfn) (x : Pfn) (v : Page)
    → IsLoose x fs ms os
    → Zones m f p o fs ms os
    → Zones (update m x v) f p o fs ms os
update-loose m f p o fs ms os x v l z = record {
  free =
      IsFreeList-frame m (update m x v) f fs
        (λ a i. update-ne m x v a (ne_of_mem a x fs i l.not_free)) z.free;
  map =
      IsFreeList-frame m (update m x v) p ms
        (λ a i. update-ne m x v a (ne_of_mem a x ms i l.not_map)) z.map;
  occupied =
      IsOccupiedList-frame m (update m x v) o os
        (λ a i. update-ne m x v a (ne_of_mem a x os i l.not_occupied)) z.occupied;
  free_map = z.free_map;
  free_occupied = z.free_occupied;
  map_occupied = z.map_occupied;
}

pub Below-weaken : (b c : ℕ) (xs : List Pfn) → b ≤ c → Below b xs → Below c xs
Below-weaken b c xs h below a i = let k = below a i in omega arith

Below-cons : (b i : ℕ) (xs : List Pfn) → b ≤ i → Below b xs → Below (i + 1) (i ∷ xs)
Below-cons b i xs h below a e = elim (eq-cases a i) [
  | inl same ↦ omega arith
  | inr ne ↦ let k = below a (ground arith) in omega arith
]

-- the frames with one of them made ready
abbrev ready : PageState → Pfn → Memory → Memory
ready s i mem = record mem {
  pages = set_state (set_prev (set_next mem.pages i nopage) i nopage) i s;
}

pub ready-Holds :
    (mem : Memory) (i : Pfn) (s : PageState) (fs ms : List Pfn)
    → IsLoose i fs ms []
    → Holds mem fs ms []
    → Holds (ready s i mem) fs ms []
ready-Holds mem i s fs ms l h =
    let m1 = set_next mem.pages i nopage in
    let m2 = set_prev m1 i nopage in
    let z1 = update-loose mem.pages mem.free mem.map mem.occupied fs ms [] i _ l h.zones in
    let z2 = update-loose m1 mem.free mem.map mem.occupied fs ms [] i _ l z1 in
    record {
      zones = update-loose m2 mem.free mem.map mem.occupied fs ms [] i _ l z2;
      free_cnt = h.free_cnt;
      occupied_cnt = h.occupied_cnt;
    }

ready-state : (mem : Memory) (i : Pfn) (s : PageState) → ((ready s i mem).pages i).state ≡ s
ready-state mem i s = ap (λ (p : Page). p.state) (update_self _ i _)

list_frame-direct :
    (mem : Memory) (i : Pfn) (fs ms : List Pfn)
    → is_direct i ≡ true
    → (mem.pages i).state ≡ pg_available
    → IsLoose i fs ms []
    → Holds mem fs ms []
    → Holds (list_frame i mem) (i ∷ fs) ms []
unfolding list_frame
list_frame-direct mem i fs ms d s l h = rw d (record {
  zones = put_free i l s h.zones;
  free_cnt = ap inc h.free_cnt ∙ ap pos (omega arith);
  occupied_cnt = h.occupied_cnt;
})

list_frame-mapped :
    (mem : Memory) (i : Pfn) (fs ms : List Pfn)
    → is_direct i ≡ false
    → (mem.pages i).state ≡ pg_available
    → IsLoose i fs ms []
    → Holds mem fs ms []
    → Holds (list_frame i mem) fs (i ∷ ms) []
unfolding list_frame
list_frame-mapped mem i fs ms d s l h = rw d (record {
  zones = Zones-swap (put_free i (IsLoose-swap l) s (Zones-swap h.zones));
  free_cnt = ap inc h.free_cnt ∙ ap pos (omega arith);
  occupied_cnt = h.occupied_cnt;
})

module _ (mem : Memory) (b i : ℕ) (fs ms : List Pfn) (h : HoldsBelow b mem fs ms) (from : b ≤ i)
    (lim : i < nopage) where
  alone : IsLoose i fs ms []
  alone = loose b i fs ms h.free_below h.map_below from lim

  -- a frame that is not available
  kept : (s : PageState) → HoldsBelow (i + 1) (ready s i mem) fs ms
  kept s = record {
    holds = ready-Holds mem i s fs ms alone h.holds;
    free_below = Below-weaken b (i + 1) fs (omega arith) h.free_below;
    map_below = Below-weaken b (i + 1) ms (omega arith) h.map_below;
  }

  pub reserved-HoldsBelow : HoldsBelow b (init_frame 2 i mem) fs ms
  unfolding init_frame
  reserved-HoldsBelow = record {
    holds = (kept pg_reserve).holds;
    free_below = h.free_below;
    map_below = h.map_below;
  }

  pub available-HoldsBelow :
      HoldsBelow
        (i + 1)
        (init_frame 1 i mem)
        (if goes_free i then i ∷ fs else fs)
        (if goes_map i then i ∷ ms else ms)
  unfolding init_frame
  available-HoldsBelow =
      let held = ready-Holds mem i pg_available fs ms alone h.holds in
      let state = ready-state mem i pg_available in
      elim (Bool-cases (is_dma i)) [
        | inl dma ↦ let (e, e') = is_dma-goes i dma in rw dma (rw e (rw e' (kept pg_dma)))
        | inr other ↦ rw other (elim (Bool-cases (is_direct i)) [
          | inl d ↦
              let (e, e') = is_direct-goes i other d in
              rw e (
                rw e' (record {
                  holds = list_frame-direct (ready pg_available i mem) i fs ms d state alone held;
                  free_below = Below-cons b i fs from h.free_below;
                  map_below = Below-weaken b (i + 1) ms (omega arith) h.map_below;
                }))
          | inr d ↦
              let (e, e') = not_direct-goes i other d in
              rw e (
                rw e' (record {
                  holds = list_frame-mapped (ready pg_available i mem) i fs ms d state alone held;
                  free_below = Below-weaken b (i + 1) fs (omega arith) h.free_below;
                  map_below = Below-cons b i ms from h.map_below;
                }))
        ])
      ]
