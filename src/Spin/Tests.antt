-- ===== src/Spin/Tests.antt =====
-- Runs of the ticket lock, and the theorems about it at a concrete interleaving of two threads.
use mjos.Base.{◌^◌, ◌-◌, ◌≡◌, ◌⊎◌, ℕ, refl, arith}
use mjos.Spin.{
  System, Reach, holding, waiting, start, take, enter, leave, takes, enters, starts, later,
  draw_ticket, raw_spin_give, atomic32_inc, is_served, move,
}
use mjos.Spin.Exclusion.{take-exclusive, take-progress}

-- Thread 0 draws a ticket, thread 1 draws one, thread 0 enters.
abbrev both : System
both = enter 0 (take 1 (take 0 start))

atomic32_inc_wraps : atomic32_inc (2 ^ 32 - 1) ≡ 0
unfolding atomic32_inc
atomic32_inc_wraps = refl

handed_on : (leave 0 both).lock.svc ≡ 1
unfolding leave raw_spin_give atomic32_inc enter take
handed_on = refl

both-Reach : Reach 2 both
unfolding enter take draw_ticket move is_served
both-Reach =
    later (later (later starts (takes 0 (omega arith) refl)) (takes 1 (omega arith) refl))
      (enters 0 0 refl refl)

holds_0 : both.phase 0 ≡ holding
unfolding enter move
holds_0 = refl

waits_1 : both.phase 1 ≡ waiting 1
unfolding enter take draw_ticket move atomic32_inc
waits_1 = refl

take-exclusive_example : ◌≡◌ {A = ℕ} 0 0
take-exclusive_example = take-exclusive 2 (omega arith) both 0 0 both-Reach holds_0 holds_0

take-progress_example :
    (x : ℕ) × ((both.phase x ≡ holding) ⊎ (both.phase x ≡ waiting both.lock.svc))
take-progress_example = take-progress 2 (omega arith) both 1 1 both-Reach waits_1
