-- ===== src/ListHead.antt =====
-- kernel/include/list.h: circular lists of entries that the kernel's structures hold. An entry is
-- known by its address, and the memory of all entries is a function from addresses.
pub mod Ring
pub mod Insert
pub mod Unlink
pub mod Find
pub mod Pair
mod Tests
use mjos.Base.{ℕ, zero, suc, ◌==◌, if◌then◌else◌, Bool, true, false, Option, none, some}

-- `ListEntry`
pub record ListEntry : Type 0 where
  pub prev : ℕ
  pub next : ℕ

abbrev pub Entries : Type 0
Entries = ℕ → ListEntry

unfoldable pub put : Entries → ℕ → ListEntry → Entries
put s p v a = if a == p then v else s a

abbrev pub set_prev : ℕ → ℕ → Entries → Entries
set_prev p q s = put s p (record (s p) { prev = q })

abbrev pub set_next : ℕ → ℕ → Entries → Entries
set_next p q s = put s p (record (s p) { next = q })

-- `list_init`
unfoldable pub list_init : ℕ → Entries → Entries
unfolding put
list_init head s = set_next head head (set_prev head head s)

-- `__list_add`
unfoldable pub list_add_between : ℕ → ℕ → ℕ → Entries → Entries
unfolding put
list_add_between n prev next s =
    set_next prev n (set_prev n prev (set_next n next (set_prev next n s)))

-- `list_add`
unfoldable pub list_add : ℕ → ℕ → Entries → Entries
list_add n head s = list_add_between n head (s head).next s

-- `list_add_tail`
unfoldable pub list_add_tail : ℕ → ℕ → Entries → Entries
list_add_tail n head s = list_add_between n (s head).prev head s

-- `list_remove`: each line reads the entry again.
unfoldable pub list_remove : ℕ → Entries → Entries
unfolding put
list_remove n s =
    let s1 = set_prev (s n).next (s n).prev s in
    let s2 = set_next (s1 n).prev (s1 n).next s1 in set_next n n (set_prev n n s2)

-- `list_empty`
unfoldable pub list_empty : ℕ → Entries → Bool
list_empty head s = (s head).next == head

-- `list_insert_before`
unfoldable pub list_insert_before : ℕ → ℕ → Entries → Entries
list_insert_before x y s = list_add_tail x y s

-- `list_pop_head`; `none` is NULL.
unfoldable pub list_pop_head : ℕ → Entries → Option ℕ × Entries
list_pop_head head s =
    if list_empty head s then (none, s) else (some (s head).next, list_remove (s head).next s)

-- The loop of `list_find` from entry `c` on, with fuel; the outer `none` is fuel that ran out.
unfoldable pub find_from : ℕ → ℕ → ℕ → (ℕ → Bool) → Entries → Option (Option ℕ)
find_from zero head c test s = none
find_from (suc fuel) head c test s =
    let rest = find_from fuel head (s c).next test s in
    if c == head then some none else if test c then some (some c) else rest

-- `list_find`; `test` is `func` at the target.
unfoldable pub list_find : ℕ → ℕ → (ℕ → Bool) → Entries → Option (Option ℕ)
list_find fuel head test s = find_from fuel head (s head).next test s

-- `list_remove_item`
unfoldable pub list_remove_item : ℕ → ℕ → (ℕ → Bool) → Entries → Option (Bool × Entries)
list_remove_item fuel head test s = elim (list_find fuel head test s) [
  | none ↦ none
  | some found ↦ elim found [ none ↦ some (false, s) | some e ↦ some (true, list_remove e s) ]
]
