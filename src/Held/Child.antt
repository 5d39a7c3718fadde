-- ===== src/Held/Child.antt =====
-- The functions that a child runs, and the descriptors of the first process.
use ginit.Base.{
  ℕ, ℤ, pos, is_neg, not, Bool, true, false, as_i32, String, Bytes, List, [], ◌∷◌, ◌++◌, Option,
  none, some, text, if◌then◌else◌, refl, ◌∙◌, ◌≡◌,
}
use ginit.Machine.{
  Arg, Call, Reply, Task, child, World, Machine, Panic, Outcome, done, hung, gone, undefined, spent,
  M, pure, stop, continue, ◌>>=◌, syscall,
}
use ginit.Linux.Calls.{write, sync, execve, exit}
use ginit.Linux.Console.{
  stderr, write_str, write_fmt, panic, writeln, with_value, warn_if_neg, unwrap,
}
use ginit.Linux.Spawn.{SpawnHelperData, spawn_helper}
use ginit.Held.{effect, held, Same, Quiet}

module _ {A B : Type 0} where
  continue-Same :
      (w : World) (o : Outcome A × World) (f : A → M B) (m : Machine)
      → Same w o.1
      → ((a : A) → Quiet (f a))
      → Same w (continue o f m).1
  continue-Same w (done a, v) f m s q = let r = (q a).run m v s.0 in (r.0, r.1 ∙ s.1)
  continue-Same w (hung, v) f m s q = s
  continue-Same w (gone, v) f m s q = s
  continue-Same w (undefined, v) f m s q = s
  continue-Same w (spent, v) f m s q = s

  pub bind-Quiet : {p : M A} {q : A → M B} → Quiet p → ((a : A) → Quiet (q a)) → Quiet (p >>= q)
  bind-Quiet {p} {q} kp kq = record { run = λ m w t. continue-Same w (p m w) q m (kp.run m w t) kq }

effect-child :
    (t : Task) (c : Call) (r : Reply) (h : List ℕ)
    → t ≡ child
    → effect (record { task = t; call = c; reply = r }) h ≡ h
effect-child t c r h e = rw e refl

pub syscall-Quiet : (num : ℕ) (args : List Arg) → Quiet (syscall num args)
unfolding syscall held
syscall-Quiet num args = record {
  run = λ m w t.
      let call : Call = record { num = num; args = args } in
      (t, effect-child w.task call (m.kernel w call) (held w.history) t);
}

pub pure-Quiet : {A : Type 0} (a : A) → Quiet (pure a)
pure-Quiet a = record { run = λ m w t. (t, refl) }

pub stop-Quiet : {A : Type 0} (o : Outcome A) → Quiet (stop o)
stop-Quiet o = record { run = λ m w t. (t, refl) }

pub if-Quiet : {A : Type 0} {p q : M A} (b : Bool) → Quiet p → Quiet q → Quiet (if b then p else q)
if-Quiet true kp kq = kp
if-Quiet false kp kq = kq

-- The value of a call.
pub call-Quiet :
    {A : Type 0} (num : ℕ) (args : List Arg) (f : Reply → A)
    → Quiet (syscall num args >>= λ r. pure (f r))
call-Quiet num args f = bind-Quiet (syscall-Quiet num args) (λ r. pure-Quiet (f r))

write_str-Quiet : (fd : ℕ) (s : Bytes) → Quiet (write_str fd s)
unfolding write_str write
write_str-Quiet fd s =
    bind-Quiet (call-Quiet 1 _ (λ r. r.ret)) (λ ret. pure-Quiet (not (is_neg ret)))

pub write_fmt-Quiet : (fd : ℕ) (pieces : List Bytes) → Quiet (write_fmt fd pieces)
unfolding write_fmt
write_fmt-Quiet fd [] = pure-Quiet true
write_fmt-Quiet fd (s ∷ pieces) =
    bind-Quiet (write_str-Quiet fd s)
      (λ ok. if-Quiet ok (write_fmt-Quiet fd pieces) (pure-Quiet false))

pub panic-Quiet : {A : Type 0} (p : Panic) → Quiet (panic {A = A} p)
unfolding panic sync
panic-Quiet p = record {
  run = λ m w t.
      (bind-Quiet (write_fmt-Quiet stderr (m.panic_text p ++ text "\n" ∷ []))
          (λ ok. bind-Quiet (call-Quiet 162 [] (λ r. tt)) (λ _. stop-Quiet hung))).run
        m w t;
}

pub writeln-Quiet : (fd : ℕ) (pieces : List Bytes) → Quiet (writeln fd pieces)
unfolding writeln
writeln-Quiet fd pieces =
    bind-Quiet (write_fmt-Quiet fd pieces) (λ ok. if-Quiet ok (pure-Quiet tt) (panic-Quiet _))

pub warn_if_neg-Quiet : (s : String) (ret : ℤ) → Quiet (warn_if_neg s ret)
unfolding warn_if_neg
warn_if_neg-Quiet s ret =
    if-Quiet (is_neg ret) (writeln-Quiet stderr (with_value s ret)) (pure-Quiet tt)

pub unwrap-Quiet : {A : Type 0} (o : Option A) → Quiet (unwrap o)
unwrap-Quiet none = panic-Quiet _
unwrap-Quiet (some a) = pure-Quiet a

execve-Quiet : (filename : Bytes) (argv envp : List Bytes) → Quiet (execve filename argv envp)
unfolding execve
execve-Quiet filename argv envp =
    bind-Quiet (syscall-Quiet 59 _)
      (λ r. if-Quiet (is_neg r.ret) (pure-Quiet (as_i32 r.ret)) (stop-Quiet gone))

exit-Quiet : {A : Type 0} (code : ℤ) → Quiet (exit {A = A} code)
unfolding exit
exit-Quiet code = bind-Quiet (syscall-Quiet 60 _) (λ r. stop-Quiet gone)

pub spawn_helper-Quiet : (arg : SpawnHelperData) → Quiet arg.pre_exec → Quiet (spawn_helper arg)
unfolding spawn_helper
spawn_helper-Quiet arg q = bind-Quiet q (λ ready.
    if-Quiet ready
      (bind-Quiet (execve-Quiet arg.filename arg.argv arg.envp) (λ ret.
        bind-Quiet
          (if-Quiet (is_neg ret) (write_fmt-Quiet stderr (with_value "failed to execve: " ret))
            (pure-Quiet true))
          (λ _. exit-Quiet (pos 1))))
      (exit-Quiet (pos 1)))
