-- ===== src/Shutdown/Phases.antt =====
-- src/shutdown.rs and graceful_shutdown of src/main.rs: the calls that end the processes, unmount
-- and power off, in a history.
pub mod Others
pub mod Parts
pub mod Order
pub mod Calls
use ginit.Base.{
  ℕ, zero, suc, ◌+◌, ◌==◌, ◌||◌, Bool, Bool-cases, inl, inr, ◌≡◌, refl, sym, ap, ◌∙◌, List, [], ◌∷◌,
  ◌++◌, replicate, if◌then◌else◌,
}
use ginit.Machine.{Call, Event, World, Machine, M}

-- `kill`, `umount` and `reboot`.
abbrev pub is_step : ℕ → Bool
is_step num = num == 62 || (num == 166 || num == 169)

-- The numbers of those calls, the newest first.
unfoldable pub steps : List Event → List ℕ
steps [] = []
steps (e ∷ before) =
    let rest = steps before in if is_step e.call.num then e.call.num ∷ rest else rest

-- The calls themselves, with their arguments, the newest first.
unfoldable pub step_calls : List Event → List Call
step_calls [] = []
step_calls (e ∷ before) =
    let rest = step_calls before in if is_step e.call.num then e.call ∷ rest else rest

-- Whatever becomes of it, the program makes none of them.
pub record Unmarked {A : Type 0} (p : M A) : Type 0 where
  pub run : (m : Machine) (w : World) → step_calls (p m w).1.history ≡ step_calls w.history

abbrev numbers : List Call → List ℕ
numbers [] = []
numbers (c ∷ cs) = c.num ∷ numbers cs

steps-step_calls : (h : List Event) → steps h ≡ numbers (step_calls h)
unfolding steps step_calls
steps-step_calls [] = refl
steps-step_calls (e ∷ before) = elim (Bool-cases (is_step e.call.num)) [
  | inl marked ↦ rw (marked, steps-step_calls before) refl
  | inr other ↦ rw (other, steps-step_calls before) refl
]

pub Unmarked-steps :
    {A : Type 0} {p : M A}
    → Unmarked p
    → (m : Machine) (w : World) → steps (p m w).1.history ≡ steps w.history
Unmarked-steps {p = p} k m w =
    steps-step_calls (p m w).1.history ∙ ap numbers (k.run m w) ∙ sym (steps-step_calls w.history)

-- Whatever becomes of it, of these calls the program makes only `umount`.
pub record Unmounts {A : Type 0} (p : M A) : Type 0 where
  pub run :
      (m : Machine) (w : World)
      → (k : ℕ) × (steps (p m w).1.history ≡ replicate k 166 ++ steps w.history)
