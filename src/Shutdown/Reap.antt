-- ===== src/Shutdown/Reap.antt =====
-- Waiting for the processes in src/shutdown.rs.
use ginit.Base.{
  ℕ, zero, suc, ◌<◌, ◌≡◌, ◌∙◌, ◌⊎◌, inl, inr, false, ℤ, pos, neg, negsuc, is_neg, List, arith,
}
use ginit.Machine.{Machine, World, done, null}
use ginit.Linux.Consts.{echild, eintr}
use ginit.Linux.Calls.{wait4}
use ginit.Shutdown.{wait_loop}

-- A `wait4` that collects a process or is interrupted.
abbrev pub GoesOn : ℤ → Type 0
GoesOn ret = (is_neg ret ≡ false) ⊎ (ret ≡ neg eintr)

-- The calls of `wait4` give `n` results after which the loop goes on, and then `last`.
pub data Waits (m : Machine) (last : ℤ) : World → ℕ → World → Type 0 where
  ends :
      {w w' : World} {ints : List ℤ} {n : ℕ}
      → n ≡ 0
      → wait4 (neg 1) null 0 m w ≡ (done (last, ints), w')
      → Waits m last w n w'
  waits :
      {w w' w'' : World} {ret : ℤ} {ints : List ℤ} {n : ℕ}
      → GoesOn ret
      → wait4 (neg 1) null 0 m w ≡ (done (ret, ints), w')
      → Waits m last w' n w''
      → Waits m last w (suc n) w''

wait_loop_step :
    (m : Machine) (fuel : ℕ) (ret : ℤ) (ints : List ℤ) (w w' : World)
    → GoesOn ret
    → wait4 (neg 1) null 0 m w ≡ (done (ret, ints), w')
    → wait_loop (suc fuel) m w ≡ wait_loop fuel m w'
unfolding wait_loop
wait_loop_step m fuel (pos n) ints w w' g e = rw e
wait_loop_step m fuel (negsuc n) ints w w' (inl p) e = absurd (cc)
wait_loop_step m fuel (negsuc n) ints w w' (inr p) e = rw (rw p at e)

-- With fuel for the waits, the loop that waits for the processes goes on after collected processes
-- and interrupts, and returns at -ECHILD.
pub wait_loop-echild :
    (m : Machine) (fuel n : ℕ) (w w' : World)
    → Waits m (neg echild) w n w'
    → n < fuel
    → wait_loop fuel m w ≡ (done tt, w')
wait_loop-echild m zero n w w' h l = absurd (omega arith)
wait_loop-echild m (suc fuel) n w w' (ends z e) l = unfold wait_loop in rw e
wait_loop-echild m (suc fuel) _ w w' (waits {w' = v} {ret} {ints} {n} g e h) l =
    wait_loop_step m fuel ret ints w v g e ∙ wait_loop-echild m fuel n v w' h (omega arith)
