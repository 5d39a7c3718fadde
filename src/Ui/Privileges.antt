-- ===== src/Ui/Privileges.antt =====
-- What the child of src/ui.rs has done when it goes on to `execve`.
use ginit.Base.{
  ℕ, ◌≡◌, ap, ℤ, pos, as_i32, is_neg, Bool, true, false, not, String, List, [], ◌∷◌, length,
  if◌then◌else◌, try_u32, Bool-cases, inl, inr,
}
use ginit.Machine.{word, bytes, Arg, Call, World, Machine, done, M, pure, ◌>>=◌, ◌>>◌, syscall}
use ginit.Machine.Runs.{bind-done}
use ginit.Machine.Chain.{Chain, ends, next, call-Success}
use ginit.Config.{Config}
use ginit.Linux.Calls.{setgid, setgroups, setuid, chdir, groups_bytes}
use ginit.Linux.Console.{stderr, with_value, writeln, unwrap}
use ginit.Ui.{move_fd, or_fail, ui_process_pre_exec}

abbrev call : ℕ → List Arg → Call
call num args = record { num = num; args = args }

-- The calls that give up the rights of the first process: the group, the other groups, the user,
-- and the directory.
abbrev pub dropping : Config → List Call
dropping cfg =
    call 106 (word cfg.user_gid ∷ [])
    ∷ call 116 (word (length cfg.user_groups) ∷ bytes (groups_bytes cfg.user_groups) ∷ [])
    ∷ call 105 (word cfg.user_uid ∷ [])
    ∷ call 80 (bytes cfg.user_home ∷ [])
    ∷ []

-- The way out of a step that has failed does not end with `true`.
refused :
    (ret : ℤ) (message : String) (rest : M Bool) (m : Machine) (w w' : World)
    → is_neg ret ≡ true
    → (if is_neg ret then (do writeln stderr (with_value message ret); pure false) else rest) m w
      ≡ (done true, w')
    → ⊥
refused ret message rest m w w' n e =
    let (a, v, p, q) =
      bind-done (writeln stderr (with_value message ret) m w) (λ _. pure false) m true w'
        (rw n at e) in
    cc

-- A step that ends with `true` has succeeded.
or_fail-true :
    (message : String) (step : M ℤ) (rest : M Bool) (m : Machine) (w w' : World)
    → or_fail message step rest m w ≡ (done true, w')
    → (ret : ℤ) × (v : World) × (step m w ≡ (done ret, v))
      × (is_neg ret ≡ false)
      × (rest m v ≡ (done true, w'))
unfolding or_fail
or_fail-true message step rest m w w' e =
    let (ret, v, p, q) = bind-done (step m w) _ m true w' e in
    elim (Bool-cases (is_neg ret)) [
      | inl n ↦ absurd (refused ret message rest m v w' n q)
      | inr n ↦ (ret, v, p, n, (rw n at q))
    ]

-- One step of the chain.
step-Chain :
    (message : String) (num : ℕ) (args : List Arg) (rest : M Bool) (m : Machine) (w w' : World)
    (calls : List Call)
    → or_fail message (syscall num args >>= λ r. pure (as_i32 r.ret)) rest m w ≡ (done true, w')
    → ((v : World) → rest m v ≡ (done true, w') → Chain calls v w')
    → Chain (call num args ∷ calls) w w'
step-Chain message num args rest m w w' calls e k =
    let (ret, v, p, n, q) = or_fail-true message _ rest m w w' e in
    next (call-Success num args m w v ret p n) (k v q)

-- Whatever the kernel answers, a child that goes on to `execve` has made the calls that give up
-- the rights of the first process, in their order and as its last ones, and all have succeeded.
pub ui_process_pre_exec-Chain :
    (m : Machine) (cfg : Config) (fd : ℕ) (w w' : World)
    → ui_process_pre_exec cfg fd m w ≡ (done true, w')
    → (v : World) × Chain (dropping cfg) v w'
unfolding ui_process_pre_exec setgid setgroups setuid chdir
ui_process_pre_exec-Chain m cfg fd w w' e =
    let (n, w1, p1, q1) = bind-done (unwrap (try_u32 (pos fd)) m w) _ m true w' e in
    let (moved, w2, p2, q2) = bind-done (move_fd n m w1) _ m true w' q1 in
    elim (Bool-cases (not moved)) [
      | inl stuck ↦ absurd (let z = (rw stuck at q2) in cc)
      | inr went ↦ (
        w2,
        step-Chain _ 106 _ _ m w2 w' _ (rw went at q2) (λ w3 q3.
            step-Chain _ 116 _ _ m w3 w' _ q3 (λ w4 q4.
              step-Chain _ 105 _ _ m w4 w' _ q4
                (λ w5 q5. step-Chain _ 80 _ _ m w5 w' _ q5 (λ w6 q6. ends (ap (λ x. x.1) q6))))),
      )
    ]
