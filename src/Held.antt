-- ===== src/Held.antt =====
-- The descriptors that the first process holds, as far as the calls that it has made tell, and
-- programs that leave them as they were. The standard streams, which `dup2` replaces, do not count.
pub mod Rules
pub mod Console
pub mod Child
pub mod Spawn
pub mod Files
pub mod Network
pub mod Requests
pub mod Boot
pub mod EventLoop
pub mod ShuttingDown
use ginit.Base.{
  ℕ, ◌==◌, ◌≡◌, ℤ, pos, negsuc, eq_ℤ, as_i32, try_u32, Option, none, some, Bool, ◌||◌, List, [],
  ◌∷◌, if◌then◌else◌,
}
use ginit.Machine.{
  Arg, word, Call, Reply, Task, parent, child, Event, World, Machine, Outcome, done, M,
}

abbrev pub pushed : Option ℕ → List ℕ → List ℕ
pushed none h = h
pushed (some n) h = n ∷ h

-- A descriptor that a call has made, if its result is one.
abbrev pub opened : ℤ → List ℕ → List ℕ
opened ret h = pushed (try_u32 ret) h

abbrev pub without : ℕ → List ℕ → List ℕ
without n [] = []
without n (k ∷ h) = if n == k then h else k ∷ without n h

-- `close` frees the descriptor even where it returns an error.
abbrev pub closed : List Arg → List ℕ → List ℕ
closed (word n ∷ []) h = without n h
closed _ h = h

-- The two of a pair, the second on top; other integers are no descriptors.
abbrev pub paired : List ℤ → List ℕ → List ℕ
paired (a ∷ b ∷ rest) h = elim (try_u32 a) [
  | none ↦ h
  | some s0 ↦ elim (try_u32 b) [ none ↦ h | some s1 ↦ s1 ∷ s0 ∷ h ]
]
paired _ h = h

-- By the number of the call: `close`, then `open`, `socket` and `signalfd4`, then `socketpair`.
abbrev pub change : ℕ → List Arg → Reply → List ℕ → List ℕ
change num args r h =
    if num == 3
    then closed args h
    else if (num == 2 || num == 41) || num == 289
    then opened (as_i32 r.ret) h
    else if num == 53
    then (if eq_ℤ (as_i32 r.ret) (pos 0) then paired r.ints h else h)
    else h

-- A child has a table of its own.
abbrev pub effect : Event → List ℕ → List ℕ
effect e h = elim e.task [ parent ↦ change e.call.num e.call.args e.reply h | child ↦ h ]

unfoldable pub held : List Event → List ℕ
held [] = []
held (e ∷ before) = effect e (held before)

-- The first process runs, and holds `h`.
abbrev pub Own : List ℕ → World → Type 0
Own h w = (w.task ≡ parent) × (held w.history ≡ h)

abbrev pub Post : {A : Type 0} → (A → List ℕ) → Outcome A × World → Type 0
Post K (done a, w) = Own (K a) w
Post K _ = Unit

-- From a world that holds `h`, a run that gives the result `a` holds `K a`.
pub record Keeps {A : Type 0} (h : List ℕ) (p : M A) (K : A → List ℕ) : Type 0 where
  pub run : (m : Machine) (w : World) → Own h w → Post K (p m w)

-- Whatever the descriptors are, a run that gives a result leaves them as they were.
abbrev pub Preserves : {A : Type 0} → M A → Type 0
Preserves p = (h : List ℕ) → Keeps h p (λ _. h)

-- The child runs on, and what the first process holds stays.
abbrev pub Same : World → World → Type 0
Same w v = (v.task ≡ child) × (held v.history ≡ held w.history)

-- In a child, the first process's descriptors stay as they are, however the run ends.
pub record Quiet {A : Type 0} (p : M A) : Type 0 where
  pub run : (m : Machine) (w : World) → w.task ≡ child → Same w (p m w).1
