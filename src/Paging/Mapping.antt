-- ===== src/Paging/Mapping.antt =====
-- `page_table_set_entry` and `page_translate` together: what is entered is translated, and nothing else
-- changes its translation.
use Prim.Native.Nat.{bit_or}
use mjos.Base.{
  ℕ, zero, suc, ◌+◌, ◌*◌, ◌/◌, ◌%◌, ◌≤◌, ◌≡◌, ◌≢◌, ◌⊎◌, inl, inr, refl, ap, sym, ◌∙◌, if◌then◌else◌,
  Bool, true, false, none, some, ◌∷◌, ◌∉◌, arith,
}
use mjos.Paging.{
  Words, Vm, write, present, entry_addr, pml_offset, slot, page_translate, put_entry,
  page_table_set_entry, uncached,
}
use mjos.Paging.Entry.{entry_addr-uncached, present-uncached}
use mjos.Paging.Walk.{
  upper, leaf, has_tables, leaf_frame, leaf-aligned, slot-table, slot-offset, write-at, write-other,
  leaf-write, has_tables-write, translate-leaf, descend-leaf, descend-missing,
}

-- The addresses of one page have the same words.
pml_offset-page :
    (n v w : ℕ) → 1 ≤ n → n ≤ 4 → v / 4096 ≡ w / 4096 → pml_offset v n ≡ pml_offset w n
unfolding pml_offset
pml_offset-page zero v w lo hi e = absurd (omega arith)
pml_offset-page (suc zero) v w lo hi e = omega arith
pml_offset-page (suc (suc zero)) v w lo hi e = omega arith
pml_offset-page (suc (suc (suc zero))) v w lo hi e = omega arith
pml_offset-page (suc (suc (suc (suc zero)))) v w lo hi e = omega arith
pml_offset-page (suc (suc (suc (suc (suc n))))) v w lo hi e = absurd (omega arith)

slot-page : (p n v w : ℕ) → 1 ≤ n → n ≤ 4 → v / 4096 ≡ w / 4096 → slot p v n ≡ slot p w n
unfolding slot
slot-page p n v w lo hi e = ap (λ o. p + 8 * o) (pml_offset-page n v w lo hi e)

upper-page :
    (n : ℕ) (t : Words) (p v w : ℕ) → n ≤ 3 → v / 4096 ≡ w / 4096 → upper n t p v ≡ upper n t p w
unfolding upper
upper-page zero t p v w hi e = refl
upper-page (suc n) t p v w hi e =
    rw (slot-page p (suc (suc n)) v w (omega arith) (omega arith) e)
      (ap (λ us. p ∷ us) (upper-page n t _ v w (omega arith) e))

leaf-page :
    (n : ℕ) (t : Words) (p v w : ℕ) → n ≤ 3 → v / 4096 ≡ w / 4096 → leaf n t p v ≡ leaf n t p w
unfolding leaf
leaf-page zero t p v w hi e = refl
leaf-page (suc n) t p v w hi e =
    rw (slot-page p (suc (suc n)) v w (omega arith) (omega arith) e)
      (leaf-page n t _ v w (omega arith) e)

has_tables-page :
    (n : ℕ) (t : Words) (p v w : ℕ)
    → n ≤ 3
    → v / 4096 ≡ w / 4096
    → has_tables n t p v ≡ has_tables n t p w
unfolding has_tables
has_tables-page zero t p v w hi e = refl
has_tables-page (suc n) t p v w hi e =
    rw (slot-page p (suc (suc n)) v w (omega arith) (omega arith) e)
      (rw (has_tables-page n t (entry_addr (t (slot p w (suc (suc n))))) v w (omega arith) e) refl)

-- `page_table_set_entry` where every table is present
pub set_entry-leaf :
    (fuel pmltop address value : ℕ) (auto_alloc : Bool) (vm : Vm)
    → has_tables 3 vm.words pmltop address ≡ true
    → page_table_set_entry (suc fuel) pmltop address value auto_alloc vm
      ≡ some (put_entry (leaf 3 vm.words pmltop address) address value vm)
unfolding page_table_set_entry
set_entry-leaf fuel pmltop address value auto_alloc vm h =
    descend-leaf (λ table e vm'. page_table_set_entry fuel pmltop table e true vm') auto_alloc 3
      pmltop address value vm h

-- Where a table is missing and none is to be put in, `page_table_set_entry` returns with nothing
-- changed: a page that is to be taken out of the tables stays as it is, and the caller is not told.
pub set_entry-missing :
    (fuel pmltop address value : ℕ) (vm : Vm)
    → has_tables 3 vm.words pmltop address ≡ false
    → (page_table_set_entry (suc fuel) pmltop address value false vm ≡ some vm)
      × (page_translate vm.words pmltop address ≡ none)
unfolding page_table_set_entry page_translate
set_entry-missing fuel pmltop address value vm h = (
  descend-missing (λ table e vm'. page_table_set_entry fuel pmltop table e true vm') 3 pmltop
      address value vm h,
  rw (translate-leaf 3 vm.words pmltop address) (rw h refl),
)

leaf_frame-uncached : (value vir : ℕ) → leaf_frame (uncached value) vir ≡ leaf_frame value vir
unfolding leaf_frame
leaf_frame-uncached value vir = rw (present-uncached value) (rw (entry_addr-uncached value) refl)

-- the translation of the page that has been entered
pub put_entry-own :
    (top address vir value : ℕ) (vm : Vm)
    → top % 4096 ≡ 0
    → has_tables 3 vm.words top address ≡ true
    → leaf 3 vm.words top address ∉ upper 3 vm.words top address
    → vir / 4096 ≡ address / 4096
    → page_translate (put_entry (leaf 3 vm.words top address) address value vm).words top vir
      ≡ leaf_frame value vir
unfolding put_entry page_translate
put_entry-own top address vir value vm ht h out e =
    let p = leaf 3 vm.words top address in
    let hp = leaf-aligned 3 vm.words top address ht in
    let t' = write vm.words (slot p address 1) (uncached value) in
    let tables : has_tables 3 t' top vir ≡ true =
      has_tables-page 3 t' top vir address (omega arith) e
      ∙ has_tables-write vm.words p address (uncached value) hp 3 top address ht out
      ∙ h in
    let last : leaf 3 t' top vir ≡ p =
      leaf-page 3 t' top vir address (omega arith) e
      ∙ leaf-write vm.words p address (uncached value) hp 3 top address ht out in
    rw (translate-leaf 3 t' top vir) (
      rw tables (
        rw last (
          rw (slot-page p 1 vir address (omega arith) (omega arith) e) (
            rw (write-at vm.words (slot p address 1) (uncached value))
              (leaf_frame-uncached value vir)))))

-- Where every table for the address is present and the last one is none of those above it,
-- `page_table_set_entry` returns, and from then on `page_translate` takes every address of the page to
-- the frame of the value, or finds no page if the value is not present.
pub page_translate-set_entry :
    (fuel top address vir value : ℕ) (auto_alloc : Bool) (vm : Vm)
    → top % 4096 ≡ 0
    → has_tables 3 vm.words top address ≡ true
    → leaf 3 vm.words top address ∉ upper 3 vm.words top address
    → vir / 4096 ≡ address / 4096
    → (vm' : Vm) × (page_table_set_entry (suc fuel) top address value auto_alloc vm ≡ some vm')
      × (page_translate vm'.words top vir
          ≡ (if present value then some (bit_or (entry_addr value) (vir % 4096)) else none))
unfolding leaf_frame
page_translate-set_entry fuel top address vir value auto_alloc vm ht h out e = (
  put_entry (leaf 3 vm.words top address) address value vm,
  set_entry-leaf fuel top address value auto_alloc vm h,
  put_entry-own top address vir value vm ht h out e,
)

-- a translation that does not use the word written
put_entry-other :
    (p top address vir value : ℕ) (vm : Vm)
    → top % 4096 ≡ 0
    → p % 4096 ≡ 0
    → p ∉ upper 3 vm.words top vir
    → (p ≢ leaf 3 vm.words top vir) ⊎ (pml_offset address 1 ≢ pml_offset vir 1)
    → page_translate (put_entry p address value vm).words top vir ≡ page_translate vm.words top vir
unfolding put_entry page_translate
put_entry-other p top address vir value vm ht hp out apart =
    let t' = write vm.words (slot p address 1) (uncached value) in
    let q = leaf 3 vm.words top vir in
    let hq = leaf-aligned 3 vm.words top vir ht in
    let other : slot q vir 1 ≢ slot p address 1 = λ e. elim apart [
      | inl ne ↦ ne (sym (slot-table q p vir address 1 1 hq hp e))
      | inr ne ↦ ne (
          sym (
            slot-offset q vir address
              (e ∙ ap (λ x. slot x address 1) (sym (slot-table q p vir address 1 1 hq hp e)))))
    ] in
    rw (translate-leaf 3 t' top vir) (
      rw (translate-leaf 3 vm.words top vir) (
        rw (has_tables-write vm.words p address (uncached value) hp 3 top vir ht out) (
          rw (leaf-write vm.words p address (uncached value) hp 3 top vir ht out) (
            rw (write-other vm.words (slot p address 1) (uncached value) (slot q vir 1) other)
              refl))))

-- Where every table for the address is present, `page_table_set_entry` leaves the translation of any
-- other address, also under another top table: of one that is led through the written table only as its
-- last, and by another word of it or not at all.
pub page_translate-other :
    (fuel top address value other vir : ℕ) (auto_alloc : Bool) (vm : Vm)
    → top % 4096 ≡ 0
    → other % 4096 ≡ 0
    → has_tables 3 vm.words top address ≡ true
    → leaf 3 vm.words top address ∉ upper 3 vm.words other vir
    → (leaf 3 vm.words top address ≢ leaf 3 vm.words other vir)
      ⊎ (pml_offset address 1 ≢ pml_offset vir 1)
    → (vm' : Vm) × (page_table_set_entry (suc fuel) top address value auto_alloc vm ≡ some vm')
      × (page_translate vm'.words other vir ≡ page_translate vm.words other vir)
page_translate-other fuel top address value other vir auto_alloc vm ht ho h out apart = (
  put_entry (leaf 3 vm.words top address) address value vm,
  set_entry-leaf fuel top address value auto_alloc vm h,
  put_entry-other (leaf 3 vm.words top address) other address vir value vm ho
      (leaf-aligned 3 vm.words top address ht) out apart,
)
