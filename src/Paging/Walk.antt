-- ===== src/Paging/Walk.antt =====
-- The tables that a virtual address leads through, and what a write to another table leaves as it was.
use Prim.Native.Nat.{bit_or}
use mjos.Base.{
  ℕ, zero, suc, ◌%◌, ◌≡◌, ◌≢◌, inl, inr, refl, ap, sym, ==_self, ==_ne, ◌&&◌, if◌then◌else◌, Bool,
  true, false, Bool-cases, Option, none, some, List, [], ◌∷◌, ◌∉◌, not_mem-cons, arith,
}
use mjos.Paging.{
  Words, Vm, write, present, entry_addr, pml_offset, slot, translate_from, put_entry, descend,
}

-- The upper tables: the first of `n + 1` and those behind it, without the last.
unfoldable pub upper : ℕ → Words → ℕ → ℕ → List ℕ
upper zero t pml vir = []
upper (suc n) t pml vir = pml ∷ upper n t (entry_addr (t (slot pml vir (suc (suc n))))) vir

-- the last table
unfoldable pub leaf : ℕ → Words → ℕ → ℕ → ℕ
leaf zero t pml vir = pml
leaf (suc n) t pml vir = leaf n t (entry_addr (t (slot pml vir (suc (suc n))))) vir

-- every table behind the first is present
unfoldable pub has_tables : ℕ → Words → ℕ → ℕ → Bool
has_tables zero t pml vir = true
has_tables (suc n) t pml vir =
    let e = t (slot pml vir (suc (suc n))) in present e && has_tables n t (entry_addr e) vir

-- What an entry of the last table translates to.
unfoldable pub leaf_frame : ℕ → ℕ → Option ℕ
leaf_frame e vir = if present e then some (bit_or (entry_addr e) (vir % 4096)) else none

entry_addr-aligned : (e : ℕ) → entry_addr e % 4096 ≡ 0
unfolding entry_addr
entry_addr-aligned e = omega arith

pub leaf-aligned : (n : ℕ) (t : Words) (pml vir : ℕ) → pml % 4096 ≡ 0 → leaf n t pml vir % 4096 ≡ 0
unfolding leaf
leaf-aligned zero t pml vir h = h
leaf-aligned (suc n) t pml vir h = leaf-aligned n t _ vir (entry_addr-aligned _)

-- words of one table are words of no other, and their places in a table are their offsets
pub slot-table : (p q v w n m : ℕ) → p % 4096 ≡ 0 → q % 4096 ≡ 0 → slot p v n ≡ slot q w m → p ≡ q
unfolding slot pml_offset
slot-table p q v w n m hp hq e = omega arith

pub slot-offset : (p v w : ℕ) → slot p v 1 ≡ slot p w 1 → pml_offset v 1 ≡ pml_offset w 1
unfolding slot
slot-offset p v w e = omega arith

pub write-at : (t : Words) (a v : ℕ) → write t a v a ≡ v
unfolding write
write-at t a v = rw (==_self a) refl

pub write-other : (t : Words) (a v b : ℕ) → b ≢ a → write t a v b ≡ t b
unfolding write
write-other t a v b h = rw (==_ne b a h) refl

module _ (t : Words) (p w v : ℕ) (hp : p % 4096 ≡ 0) where
  upper-same :
      (m pml vir n : ℕ)
      → pml % 4096 ≡ 0
      → p ≢ pml
      → write t (slot p w m) v (slot pml vir n) ≡ t (slot pml vir n)
  upper-same m pml vir n h ne =
      write-other t (slot p w m) v (slot pml vir n)
        (λ e. ne (sym (slot-table pml p vir w n m h hp e)))

  pub leaf-write :
      (n pml vir : ℕ)
      → pml % 4096 ≡ 0
      → p ∉ upper n t pml vir
      → leaf n (write t (slot p w 1) v) pml vir ≡ leaf n t pml vir
  unfolding leaf upper
  leaf-write zero pml vir h av = refl
  leaf-write (suc n) pml vir h av =
      let (ne, rest) = not_mem-cons p pml _ av in
      rw (upper-same 1 pml vir (suc (suc n)) h ne) (leaf-write n _ vir (entry_addr-aligned _) rest)

  pub has_tables-write :
      (n pml vir : ℕ)
      → pml % 4096 ≡ 0
      → p ∉ upper n t pml vir
      → has_tables n (write t (slot p w 1) v) pml vir ≡ has_tables n t pml vir
  unfolding has_tables upper
  has_tables-write zero pml vir h av = refl
  has_tables-write (suc n) pml vir h av =
      let (ne, rest) = not_mem-cons p pml _ av in
      rw (upper-same 1 pml vir (suc (suc n)) h ne) (
        ap (λ b. present (t (slot pml vir (suc (suc n)))) && b)
          (has_tables-write n _ vir (entry_addr-aligned _) rest))

-- A translation is that of the entry in the last table, where every table is present.
pub translate-leaf :
    (n : ℕ) (t : Words) (pml vir : ℕ)
    → translate_from (suc n) t pml vir ≡ (
        if has_tables n t pml vir then leaf_frame (t (slot (leaf n t pml vir) vir 1)) vir else none)
unfolding translate_from has_tables leaf leaf_frame
translate-leaf zero t pml vir = refl
translate-leaf (suc n) t pml vir =
    ground (arith, translate-leaf n t (entry_addr (t (slot pml vir (suc (suc n))))) vir)

and-true : (a b : Bool) → a && b ≡ true → (a ≡ true) × (b ≡ true)
and-true a b h = ground arith

and-rest : (a b : Bool) → a ≡ true → a && b ≡ false → b ≡ false
and-rest a b e h = ground arith

-- the loop of `page_table_set_entry` where every table is present: one write, to the last table
pub descend-leaf :
    (again : ℕ → ℕ → Vm → Option Vm) (auto_alloc : Bool) (n pml address value : ℕ) (vm : Vm)
    → has_tables n vm.words pml address ≡ true
    → descend again auto_alloc n pml address value vm
      ≡ some (put_entry (leaf n vm.words pml address) address value vm)
unfolding descend has_tables leaf
descend-leaf again auto_alloc zero pml address value vm h = refl
descend-leaf again auto_alloc (suc n) pml address value vm h =
    let (here, rest) =
      and-true (present (vm.words (slot pml address (suc (suc n)))))
        (has_tables n vm.words (entry_addr (vm.words (slot pml address (suc (suc n))))) address)
        h in
    rw here (descend-leaf again auto_alloc n _ address value vm rest)

-- Without `auto_alloc` the loop changes nothing where a table is missing.
pub descend-missing :
    (again : ℕ → ℕ → Vm → Option Vm) (n pml address value : ℕ) (vm : Vm)
    → has_tables n vm.words pml address ≡ false
    → descend again false n pml address value vm ≡ some vm
unfolding descend has_tables
descend-missing again zero pml address value vm h = ground arith
descend-missing again (suc n) pml address value vm h =
    elim (Bool-cases (present (vm.words (slot pml address (suc (suc n)))))) [
      | inl e ↦ rw e (descend-missing again n _ address value vm (and-rest _ _ e h))
      | inr e ↦ rw e refl
    ]
