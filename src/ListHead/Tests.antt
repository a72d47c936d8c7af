-- ===== src/ListHead/Tests.antt =====
-- The theorems on circular lists at a ring with the head 1 and the entries 10 and 11.
use mjos.Base.{ℕ, refl, [], ◌∷◌, ◌==◌, if◌then◌else◌}
use mjos.ListHead.{ListEntry, Entries, list_remove, list_insert_before}
use mjos.ListHead.Ring.{IsRing}
use mjos.ListHead.Insert.{list_insert_before-IsRing}
use mjos.ListHead.Unlink.{list_remove-IsRing}

abbrev entry : ℕ → ℕ → ListEntry
entry p n = record { prev = p; next = n }

abbrev entries : Entries
entries a =
    if a == 1
    then entry 11 10
    else if a == 10
    then entry 1 11
    else if a == 11
    then entry 10 1
    else entry a a

ring : IsRing entries 1 (10 ∷ 11 ∷ [])
ring = record {
  forward = (refl, (refl, (refl, tt)));
  backward = (refl, (refl, (refl, tt)));
  distinct = (refl, (refl, (refl, tt)));
}

list_remove-IsRing_example :
    IsRing (list_remove 10 entries) 1 (11 ∷ []) × IsRing (list_remove 10 entries) 10 []
list_remove-IsRing_example = list_remove-IsRing entries 1 10 [] (11 ∷ []) ring

list_insert_before-IsRing_example : IsRing (list_insert_before 12 11 entries) 1 (10 ∷ 12 ∷ 11 ∷ [])
list_insert_before-IsRing_example =
    list_insert_before-IsRing entries 12 1 (10 ∷ []) (11 ∷ []) refl ring
