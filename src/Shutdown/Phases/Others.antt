-- ===== src/Shutdown/Phases/Others.antt =====
-- The parts of a shutdown that make no call of ginit.Shutdown.Phases.
use ginit.Base.{
  ℕ, ◌≡◌, refl, ◌∙◌, ℤ, pos, is_neg, as_i32, Bool, true, false, not, String, Bytes, List, [], ◌∷◌,
  ◌++◌, Option, none, some, text, overwrite, if◌then◌else◌,
}
use ginit.Machine.{
  Panic, Arg, Call, Task, Reply, World, Machine, Outcome, done, hung, gone, undefined, spent, M,
  pure, stop, continue, ◌>>=◌, syscall,
}
use ginit.Linux.Calls.{read, write, open_file, close, sync, dup2, wait4, execve, exit}
use ginit.Linux.Console.{
  stderr, write_str, write_fmt, writeln, with_value, panic, warn_if_neg, unwrap, drop_fd, with_fd,
}
use ginit.Linux.Spawn.{
  SpawnHelperData, spawn_helper, resume, run_child, clone, spawn_with_pre_exec,
  spawn_and_wait_with_pre_exec, stored_status, ok, err,
}
use ginit.Shutdown.Phases.{is_step, step_calls, Unmarked}

module _ {A B : Type 0} where
  continue-step_calls :
      (before : List Call) (o : Outcome A × World) (f : A → M B) (m : Machine)
      → step_calls o.1.history ≡ before
      → ((a : A) → Unmarked (f a))
      → step_calls (continue o f m).1.history ≡ before
  continue-step_calls before (done a, v) f m s q = (q a).run m v ∙ s
  continue-step_calls before (hung, v) f m s q = s
  continue-step_calls before (gone, v) f m s q = s
  continue-step_calls before (undefined, v) f m s q = s
  continue-step_calls before (spent, v) f m s q = s

  pub bind-Unmarked :
      {p : M A} {q : A → M B} → Unmarked p → ((a : A) → Unmarked (q a)) → Unmarked (p >>= q)
  bind-Unmarked {p} {q} kp kq = record {
    run = λ m w. continue-step_calls (step_calls w.history) (p m w) q m (kp.run m w) kq;
  }

pub syscall-Unmarked :
    (num : ℕ) (args : List Arg) → is_step num ≡ false → Unmarked (syscall num args)
unfolding syscall step_calls
syscall-Unmarked num args n = record { run = λ m w. rw n refl }

pub pure-Unmarked : {A : Type 0} (a : A) → Unmarked (pure a)
pure-Unmarked a = record { run = λ m w. refl }

pub stop-Unmarked : {A : Type 0} (o : Outcome A) → Unmarked (stop o)
stop-Unmarked o = record { run = λ m w. refl }

pub if-Unmarked :
    {A : Type 0} {p q : M A} (b : Bool) → Unmarked p → Unmarked q → Unmarked (if b then p else q)
if-Unmarked true kp kq = kp
if-Unmarked false kp kq = kq

-- The value of a call.
call-Unmarked :
    {A : Type 0} (num : ℕ) (args : List Arg) (f : Reply → A)
    → is_step num ≡ false
    → Unmarked (syscall num args >>= λ r. pure (f r))
call-Unmarked num args f n = bind-Unmarked (syscall-Unmarked num args n) (λ r. pure-Unmarked (f r))

write_str-Unmarked : (fd : ℕ) (s : Bytes) → Unmarked (write_str fd s)
unfolding write_str write
write_str-Unmarked fd s =
    bind-Unmarked (call-Unmarked 1 _ (λ r. r.ret) refl) (λ ret. pure-Unmarked (not (is_neg ret)))

write_fmt-Unmarked : (fd : ℕ) (pieces : List Bytes) → Unmarked (write_fmt fd pieces)
unfolding write_fmt
write_fmt-Unmarked fd [] = pure-Unmarked true
write_fmt-Unmarked fd (s ∷ pieces) =
    bind-Unmarked (write_str-Unmarked fd s)
      (λ ok. if-Unmarked ok (write_fmt-Unmarked fd pieces) (pure-Unmarked false))

pub sync-Unmarked : Unmarked sync
unfolding sync
sync-Unmarked = call-Unmarked 162 [] (λ r. tt) refl

pub panic-Unmarked : {A : Type 0} (p : Panic) → Unmarked (panic {A = A} p)
unfolding panic
panic-Unmarked p = record {
  run = λ m w.
      (bind-Unmarked (write_fmt-Unmarked stderr (m.panic_text p ++ text "\n" ∷ []))
          (λ ok. bind-Unmarked sync-Unmarked (λ _. stop-Unmarked hung))).run
        m w;
}

pub writeln-Unmarked : (fd : ℕ) (pieces : List Bytes) → Unmarked (writeln fd pieces)
unfolding writeln
writeln-Unmarked fd pieces =
    bind-Unmarked (write_fmt-Unmarked fd pieces)
      (λ ok. if-Unmarked ok (pure-Unmarked tt) (panic-Unmarked _))

warn_if_neg-Unmarked : (s : String) (ret : ℤ) → Unmarked (warn_if_neg s ret)
unfolding warn_if_neg
warn_if_neg-Unmarked s ret =
    if-Unmarked (is_neg ret) (writeln-Unmarked stderr (with_value s ret)) (pure-Unmarked tt)

pub unwrap-Unmarked : {A : Type 0} (o : Option A) → Unmarked (unwrap o)
unwrap-Unmarked none = panic-Unmarked _
unwrap-Unmarked (some a) = pure-Unmarked a

pub drop_fd-Unmarked : (fd : ℕ) → Unmarked (drop_fd fd)
unfolding drop_fd close
drop_fd-Unmarked fd =
    bind-Unmarked (call-Unmarked 3 _ (λ r. as_i32 r.ret) refl)
      (λ ret. warn_if_neg-Unmarked "failed to close FD: " ret)

pub with_fd-Unmarked :
    {A : Type 0} (fd : ℕ) {body : M A} → Unmarked body → Unmarked (with_fd fd body)
unfolding with_fd
with_fd-Unmarked fd k =
    bind-Unmarked k (λ a. bind-Unmarked (drop_fd-Unmarked fd) (λ _. pure-Unmarked a))

pub open_file-Unmarked : (name : Bytes) (flags mode : ℕ) → Unmarked (open_file name flags mode)
unfolding open_file
open_file-Unmarked name flags mode = call-Unmarked 2 _ (λ r. as_i32 r.ret) refl

pub dup2-Unmarked : (old new : ℕ) → Unmarked (dup2 old new)
unfolding dup2
dup2-Unmarked old new = call-Unmarked 33 _ (λ r. as_i32 r.ret) refl

pub read-Unmarked : (fd : ℕ) (buf : Bytes) → Unmarked (read fd buf)
unfolding read
read-Unmarked fd buf = call-Unmarked 0 _ (λ r. (r.ret, overwrite buf r.stored)) refl

pub wait4-Unmarked : (pid : ℤ) (status : Arg) (options : ℕ) → Unmarked (wait4 pid status options)
unfolding wait4
wait4-Unmarked pid status options = call-Unmarked 61 _ (λ r. (as_i32 r.ret, r.ints)) refl

execve-Unmarked : (filename : Bytes) (argv envp : List Bytes) → Unmarked (execve filename argv envp)
unfolding execve
execve-Unmarked filename argv envp =
    bind-Unmarked (syscall-Unmarked 59 _ refl)
      (λ r. if-Unmarked (is_neg r.ret) (pure-Unmarked (as_i32 r.ret)) (stop-Unmarked gone))

exit-Unmarked : {A : Type 0} (code : ℤ) → Unmarked (exit {A = A} code)
unfolding exit
exit-Unmarked code = bind-Unmarked (syscall-Unmarked 60 _ refl) (λ r. stop-Unmarked gone)

spawn_helper-Unmarked :
    (arg : SpawnHelperData) → Unmarked arg.pre_exec → Unmarked (spawn_helper arg)
unfolding spawn_helper
spawn_helper-Unmarked arg q = bind-Unmarked q (λ ready.
    if-Unmarked ready
      (bind-Unmarked (execve-Unmarked arg.filename arg.argv arg.envp) (λ ret.
        bind-Unmarked
          (if-Unmarked (is_neg ret)
            (write_fmt-Unmarked stderr (with_value "failed to execve: " ret)) (pure-Unmarked true))
          (λ _. exit-Unmarked (pos 1))))
      (exit-Unmarked (pos 1)))

resume-step_calls :
    (t : Task) (r : Outcome (Unit {0}) × World)
    → step_calls (resume t r).1.history ≡ step_calls r.1.history
unfolding resume
resume-step_calls t (gone, w) = refl
resume-step_calls t (done a, w) = refl
resume-step_calls t (hung, w) = refl
resume-step_calls t (undefined, w) = refl
resume-step_calls t (spent, w) = refl

run_child-Unmarked : (f : M (Unit {0})) → Unmarked f → Unmarked (run_child f)
unfolding run_child
run_child-Unmarked f q = record { run = λ m w. resume-step_calls w.task (f m _) ∙ q.run m _ }

clone-Unmarked : (flags : ℕ) (f : M (Unit {0})) → Unmarked f → Unmarked (clone flags f)
unfolding clone
clone-Unmarked flags f q = bind-Unmarked (syscall-Unmarked 56 _ refl) (λ r.
    if-Unmarked (is_neg r.ret) (pure-Unmarked (as_i32 r.ret))
      (bind-Unmarked (run_child-Unmarked f q) (λ _. pure-Unmarked (as_i32 r.ret))))

-- The parent's part and the child's.
pub spawn_and_wait_with_pre_exec-Unmarked :
    (filename : Bytes) (argv envp : List Bytes) (pre_exec : M Bool)
    → Unmarked pre_exec
    → Unmarked (spawn_and_wait_with_pre_exec filename argv envp pre_exec)
unfolding spawn_and_wait_with_pre_exec spawn_with_pre_exec
spawn_and_wait_with_pre_exec-Unmarked filename argv envp pre_exec q =
    bind-Unmarked (clone-Unmarked _ _ (spawn_helper-Unmarked _ q)) (λ pid.
      if-Unmarked (is_neg pid) (pure-Unmarked (err pid)) (
        bind-Unmarked (wait4-Unmarked pid _ 0)
          (λ x. pure-Unmarked (if is_neg x.0 then err x.0 else ok (stored_status x.1)))))
