-- ===== src/Main/Reaping.antt =====
-- The branch of the signalfd in the loop of src/main.rs.
use ginit.Base.{
  ℕ, zero, suc, ◌<◌, ◌≡◌, refl, ℤ, pos, neg, eq_ℤ, true, false, Bool, Bytes, List, zeros, ==_iff,
  arith, if◌then◌else◌,
}
use ginit.Machine.{space, Machine, World, done}
use ginit.Linux.Consts.{eagain, wnohang}
use ginit.Linux.Calls.{read, wait4}
use ginit.Linux.Console.{stdout, with_value, writeln}
use ginit.Main.Loop.{goes_on, leaves, status_after, drain, reap, on_signal}

-- The signals that are waiting: `n` reads get some, and the next one has to wait.
pub data Signals (m : Machine) (fd : ℕ) : World → ℕ → World → Type 0 where
  empty :
      {w w' : World} {n : ℕ} {buf : Bytes}
      → n ≡ 0
      → read fd (zeros 128) m w ≡ (done (neg eagain, buf), w')
      → Signals m fd w n w'
  more :
      {w w' w'' : World} {n k : ℕ} {buf : Bytes}
      → read fd (zeros 128) m w ≡ (done (pos k, buf), w')
      → Signals m fd w' n w''
      → Signals m fd w (suc n) w''

-- The children that have ended, as `wait4` gives them: `n` others, and then none or that of the
-- user interface, which is reported.
pub data Ended (m : Machine) (ui : ℕ) : ℤ → World → ℕ → Bool → World → Type 0 where
  none_left :
      {status : ℤ} {w w' : World} {n : ℕ} {ints : List ℤ}
      → n ≡ 0
      → wait4 (neg 1) (space 4) wnohang m w ≡ (done (pos 0, ints), w')
      → Ended m ui status w n false w'
  ui_ended :
      {status : ℤ} {w w' w'' : World} {n k : ℕ} {ints : List ℤ}
      → n ≡ 0
      → suc k ≡ ui
      → wait4 (neg 1) (space 4) wnohang m w ≡ (done (pos (suc k), ints), w')
      → writeln stdout (with_value "UI process died: " (status_after ints status)) m w'
        ≡ (done tt, w'')
      → Ended m ui status w n true w''
  another :
      {status : ℤ} {w w' w'' : World} {n k : ℕ} {ints : List ℤ} {died : Bool}
      → eq_ℤ (pos (suc k)) (pos ui) ≡ false
      → wait4 (neg 1) (space 4) wnohang m w ≡ (done (pos (suc k), ints), w')
      → Ended m ui (status_after ints status) w' n died w''
      → Ended m ui status w (suc n) died w''

drain-Signals :
    (m : Machine) (fd fuel n : ℕ) (w w' : World)
    → Signals m fd w n w'
    → n < fuel
    → drain fuel fd m w ≡ (done tt, w')
unfolding drain
drain-Signals m fd zero n w w' s l = absurd (omega arith)
drain-Signals m fd (suc fuel) n w w' (empty z e) l = rw e refl
drain-Signals m fd (suc fuel) _ w w' (more {w' = v} {n = n} e s) l =
    rw e (drain-Signals m fd fuel n v w' s (omega arith))

-- A process identifier is no 0.
not_none : (k : ℕ) → eq_ℤ (pos (suc k)) (pos 0) ≡ false
not_none k = ground arith

reap-Ended :
    (m : Machine) (ui fuel n : ℕ) (status : ℤ) (w w' : World) (died : Bool)
    → Ended m ui status w n died w'
    → n < fuel
    → reap fuel (pos ui) status m w ≡ (done died, w')
unfolding reap
reap-Ended m ui zero n status w w' died s l = absurd (omega arith)
reap-Ended m ui (suc fuel) n status w w' _ (none_left z e) l = rw e refl
reap-Ended m ui (suc fuel) n status w w' _ (ui_ended {k = k} z same e told) l =
    rw (e, not_none k, (==_iff (suc k) ui).1 same, told) refl
reap-Ended m ui (suc fuel) _ status w w' died (another {w' = v} {n = n} {k = k} ne e s) l =
    rw (e, not_none k, ne) (reap-Ended m ui fuel n _ v w' died s (omega arith))

-- With fuel for the reads and the waits, the branch of the signalfd takes every signal that waits,
-- collects every child that has ended up to that of the user interface, and leaves the loop if and
-- only if it was among them.
pub on_signal-Ended :
    (m : Machine) (fd ui fuel n k : ℕ) (w v w' : World) (died : Bool)
    → Signals m fd w n v
    → n < fuel
    → Ended m ui (pos 0) v k died w'
    → k < fuel
    → on_signal fuel fd (pos ui) true m w ≡ (done (if died then leaves else goes_on), w')
unfolding on_signal
on_signal-Ended m fd ui fuel n k w v w' died s l r l' =
    rw (drain-Signals m fd fuel n w v s l, reap-Ended m ui fuel k (pos 0) v w' died r l') refl
