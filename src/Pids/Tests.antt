-- ===== src/Pids/Tests.antt =====
-- Ten ids in use, and the theorems about the next one.
use mjos.Base.{ℕ, ◌<◌, ◌≡◌, ◌≢◌, ◌⊎◌, refl, ◌==◌, if◌then◌else◌, true, some, arith}
use mjos.CString.{Mem, store}
use mjos.Pids.{chk_bitmap, set_bitmap, find_pid, find_usable_pid, release_pid}
use mjos.Pids.First.{IsFirstFree, find_usable_pid-first, release_pid-find}

abbrev ten : Mem
ten a = if a == 0 then 255 else if a == 1 then 3 else 0

eighth : chk_bitmap ten 8 ≡ true
unfolding chk_bitmap
eighth = refl

next : (find_pid 20 0 ten) ≡ some (10, set_bitmap ten 10)
unfolding find_pid chk_bitmap
next = refl

marked : set_bitmap ten 10 1 ≡ 7
unfolding set_bitmap store
marked = refl

find_usable_pid-first_example :
    ((find_usable_pid ten ≡ (65535, ten)) × ((j : ℕ) → j < 32767 → chk_bitmap ten j ≡ true))
    ⊎ ((pid : ℕ) × (bitmap' : Mem) × (find_usable_pid ten ≡ (pid, bitmap'))
        × IsFirstFree ten 0 32767 pid
        × ((j : ℕ) → chk_bitmap bitmap' j ≡ (if j == pid then true else chk_bitmap ten j)))
find_usable_pid-first_example = find_usable_pid-first ten

found : find_usable_pid ten ≡ (10, set_bitmap ten 10)
unfolding find_usable_pid find_pid chk_bitmap
found = refl

valid : ◌≢◌ {A = ℕ} 10 65535
valid e = omega (arith, e)

release_pid-find_example : chk_bitmap (release_pid 10 (set_bitmap ten 10)) 10 ≡ chk_bitmap ten 10
release_pid-find_example = release_pid-find ten (set_bitmap ten 10) 10 10 found valid
