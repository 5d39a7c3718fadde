-- ===== src/Held/Spawn.antt =====
-- Descriptors in the functions of src/linux.rs that spawn processes.
use ginit.Base.{ℕ, ℤ, is_neg, as_i32, true, Bytes, List, if◌then◌else◌, refl, ◌∙◌, ◌≡◌}
use ginit.Machine.{Arg, Task, parent, child, World, Outcome, done, hung, gone, undefined, spent, M}
use ginit.Linux.Calls.{wait4}
use ginit.Linux.Spawn.{
  ok, err, resume, run_child, clone, stored_status, spawn_with_pre_exec, dummy_pre_exec, spawn,
  spawn_and_wait_with_pre_exec,
}
use ginit.Held.{held, Post, Preserves, Quiet}
use ginit.Held.Rules.{bind-Keeps, syscall-Keeps, pure-Keeps, if-Keeps, then-Preserves}
use ginit.Held.Child.{pure-Quiet, spawn_helper-Quiet}

resume-Post :
    (h : List ℕ) (t : Task) (r : Outcome (Unit {0}) × World)
    → t ≡ parent
    → held r.1.history ≡ h
    → Post {A = Unit {0}} (λ _. h) (resume t r)
unfolding resume
resume-Post h t (gone, w) e q = (e, q)
resume-Post h t (done a, w) e q = tt
resume-Post h t (hung, w) e q = tt
resume-Post h t (undefined, w) e q = tt
resume-Post h t (spent, w) e q = tt

run_child-Preserves : (f : M (Unit {0})) → Quiet f → Preserves (run_child f)
unfolding run_child
run_child-Preserves f q h = record {
  run = λ m w own.
      resume-Post h w.task _ own.0 ((q.run m (record w { task = child }) refl).1 ∙ own.1);
}

clone-Preserves : (flags : ℕ) (f : M (Unit {0})) → Quiet f → Preserves (clone flags f)
unfolding clone
clone-Preserves flags f q h = bind-Keeps (syscall-Keeps 56 _ h) (λ r.
    if-Keeps (is_neg r.ret) (pure-Keeps (as_i32 r.ret) (λ _. h) refl)
      (then-Preserves (run_child-Preserves f q) (pure-Keeps (as_i32 r.ret) (λ _. h) refl)))

pub spawn_with_pre_exec-Preserves :
    (filename : Bytes) (argv envp : List Bytes) (pre_exec : M _)
    → Quiet pre_exec
    → Preserves (spawn_with_pre_exec filename argv envp pre_exec)
unfolding spawn_with_pre_exec
spawn_with_pre_exec-Preserves filename argv envp pre_exec q =
    clone-Preserves _ _ (spawn_helper-Quiet _ q)

pub spawn-Preserves :
    (filename : Bytes) (argv envp : List Bytes) → Preserves (spawn filename argv envp)
unfolding spawn
spawn-Preserves filename argv envp =
    spawn_with_pre_exec-Preserves filename argv envp dummy_pre_exec (pure-Quiet true)

pub wait4-Preserves : (pid : ℤ) (status : Arg) (options : ℕ) → Preserves (wait4 pid status options)
unfolding wait4
wait4-Preserves pid status options h =
    bind-Keeps (syscall-Keeps 61 _ h) (λ r. pure-Keeps (as_i32 r.ret, r.ints) (λ _. h) refl)

pub spawn_and_wait_with_pre_exec-Preserves :
    (filename : Bytes) (argv envp : List Bytes) (pre_exec : M _)
    → Quiet pre_exec
    → Preserves (spawn_and_wait_with_pre_exec filename argv envp pre_exec)
unfolding spawn_and_wait_with_pre_exec
spawn_and_wait_with_pre_exec-Preserves filename argv envp pre_exec q h =
    bind-Keeps (spawn_with_pre_exec-Preserves filename argv envp pre_exec q h) (λ pid.
      if-Keeps (is_neg pid) (pure-Keeps (err pid) (λ _. h) refl) (
        bind-Keeps (wait4-Preserves pid _ 0 h) (λ (ret, ints).
          pure-Keeps (if is_neg ret then err ret else ok (stored_status ints)) (λ _. h) refl)))
