-- ===== src/Pids/First.antt =====
-- `find_usable_pid` takes the least process id that is not in use.
use mjos.Base.{
  ℕ, zero, suc, ◌+◌, ◌≤◌, ◌<◌, ◌≡◌, ◌≢◌, ◌⊎◌, inl, inr, refl, ap, sym, ◌∙◌, ◌==◌, if◌then◌else◌,
  Bool-cases, eq-cases, true, false, none, some, arith,
}
use mjos.CString.{Mem}
use mjos.Pids.{chk_bitmap, set_bitmap, find_pid, find_usable_pid, release_pid}
use mjos.Pids.Bits.{set_bitmap-chk, clr_bitmap-chk}

-- From `from` on, `pid` is the first one that is not in use.
pub record IsFirstFree (bitmap : Mem) (from limit pid : ℕ) : Type 0 where
  pub low : from ≤ pid
  pub high : pid < limit
  pub free : chk_bitmap bitmap pid ≡ false
  pub before : (j : ℕ) → from ≤ j → j < pid → chk_bitmap bitmap j ≡ true

used_from :
    (bitmap : Mem) (from j : ℕ)
    → chk_bitmap bitmap from ≡ true
    → (from + 1 ≤ j → chk_bitmap bitmap j ≡ true)
    → from ≤ j
    → chk_bitmap bitmap j ≡ true
used_from bitmap from j e behind l = elim (eq-cases j from) [
  | inl same ↦ rw same e
  | inr n ↦ behind (omega (arith, n))
]

find_pid-cases :
    (count from : ℕ) (bitmap : Mem)
    → ((find_pid count from bitmap ≡ none)
        × ((j : ℕ) → from ≤ j → j < from + count → chk_bitmap bitmap j ≡ true))
      ⊎ ((pid : ℕ) × (find_pid count from bitmap ≡ some (pid, set_bitmap bitmap pid))
          × IsFirstFree bitmap from (from + count) pid)
unfolding find_pid
find_pid-cases zero from bitmap = inl (refl, λ j l h. absurd (omega arith))
find_pid-cases (suc count) from bitmap = elim (Bool-cases (chk_bitmap bitmap from)) [
  | inl e ↦ rw e (elim (find_pid-cases count (from + 1) bitmap) [
    | inl (none_left, used) ↦
        inl (none_left, λ j l h. used_from bitmap from j e (λ k. used j k (omega arith)) l)
    | inr (pid, found, first) ↦ inr (
      pid,
      found,
      record {
        low = let l = first.low in omega arith;
        high = let h = first.high in omega arith;
        free = first.free;
        before = λ j l h. used_from bitmap from j e (λ k. first.before j k h) l;
      },
    )
  ])
  | inr e ↦ rw e (
      inr (
        from,
        refl,
        record {
          low = omega arith;
          high = omega arith;
          free = e;
          before = λ j l h. absurd (omega arith);
        },
      ))
]

-- `find_usable_pid` returns the least id below 32767 that is not in use and marks it, and no other; when
-- all are in use, it returns 65535 and changes nothing.
pub find_usable_pid-first :
    (bitmap : Mem)
    → ((find_usable_pid bitmap ≡ (65535, bitmap))
        × ((j : ℕ) → j < 32767 → chk_bitmap bitmap j ≡ true))
      ⊎ ((pid : ℕ) × (bitmap' : Mem) × (find_usable_pid bitmap ≡ (pid, bitmap'))
          × IsFirstFree bitmap 0 32767 pid
          × ((j : ℕ) → chk_bitmap bitmap' j ≡ (if j == pid then true else chk_bitmap bitmap j)))
unfolding find_usable_pid
find_usable_pid-first bitmap = elim (find_pid-cases 32767 0 bitmap) [
  | inl (none_left, used) ↦
      inl (rw (none_left, find_usable_pid) refl, λ j h. used j (omega arith) (omega arith))
  | inr (pid, found, first) ↦ inr (
    pid,
    set_bitmap bitmap pid,
    rw (found, find_usable_pid) refl,
    first,
    λ j. set_bitmap-chk bitmap pid j,
  )
]

release_pid-set :
    (bitmap : Mem) (pid j : ℕ)
    → chk_bitmap bitmap pid ≡ false
    → chk_bitmap (release_pid pid (set_bitmap bitmap pid)) j ≡ chk_bitmap bitmap j
release_pid-set bitmap pid j free = elim (eq-cases j pid) [
  | inl e ↦
      let at : (j == pid) ≡ true = ground (arith, e) in
      clr_bitmap-chk (set_bitmap bitmap pid) pid j ∙ rw (at, e) (sym free)
  | inr n ↦
      let away : (j == pid) ≡ false = ground (arith, n) in
      clr_bitmap-chk (set_bitmap bitmap pid) pid j
      ∙ rw away (set_bitmap-chk bitmap pid j ∙ rw away refl)
]

-- `destroy_process` gives back what `find_usable_pid` marked: when an id was found, after both the same ids are
-- in use as before.
pub release_pid-find :
    (bitmap bitmap' : Mem) (pid j : ℕ)
    → find_usable_pid bitmap ≡ (pid, bitmap')
    → pid ≢ 65535
    → chk_bitmap (release_pid pid bitmap') j ≡ chk_bitmap bitmap j
unfolding find_usable_pid
release_pid-find bitmap bitmap' pid j e n = elim (find_pid-cases 32767 0 bitmap) [
  | inl (none_left, used) ↦
      let whole : find_usable_pid bitmap ≡ (65535, bitmap) = rw (none_left, find_usable_pid) refl in
      absurd (n (ap (λ r. r.0) (sym e ∙ whole)))
  | inr (first, found, free) ↦
      let whole : find_usable_pid bitmap ≡ (first, set_bitmap bitmap first) =
        rw (found, find_usable_pid) refl in
      let same = sym e ∙ whole in
      rw (ap (λ r. r.0) same, ap (λ r. r.1) same) (release_pid-set bitmap first j free.free)
]
