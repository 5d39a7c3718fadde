-- ===== src/Ends/Spawn.antt =====
-- The functions of src/linux.rs that spawn a process: the child comes to its end, and the parent
-- goes on.
use ginit.Base.{
  ℕ, ℤ, pos, is_neg, as_i32, ◌≡◌, inr, refl, Bool, true, false, Bytes, List, if◌then◌else◌,
}
use ginit.Machine.{Arg, child, World, Machine, gone, M, pure, stop, ◌>>=◌, syscall}
use ginit.Linux.Calls.{execve, exit, wait4}
use ginit.Linux.Console.{stderr, with_value, write_fmt}
use ginit.Linux.Spawn.{
  ok, err, resume, run_child, clone, SpawnHelperData, spawn_helper, stored_status,
  spawn_with_pre_exec, spawn_and_wait_with_pre_exec,
}
use ginit.Ends.{Speaks, Ends, bind-Ends, pure-Ends, if-Ends, syscall-Ends, write_fmt-ok}

-- A program that ends its process.
record Goes {A : Type 0} (p : M A) : Type 0 where
  run : (m : Machine) (w : World) → Speaks m → (v : World) × (p m w ≡ (gone, v))

bind-Goes :
    {A B : Type 0} {p : M A} {q : A → M B} → Ends p → ((a : A) → Goes (q a)) → Goes (p >>= q)
bind-Goes kp kq = record {
  run = λ m w s. let (a, v, e) = kp.run m w s in let (u, e') = (kq a).run m v s in (u, rw e e');
}

if-Goes : {A : Type 0} {p q : M A} (b : Bool) → Goes p → Goes q → Goes (if b then p else q)
if-Goes true kp kq = kp
if-Goes false kp kq = kq

exit-Goes : {A : Type 0} (code : ℤ) → Goes (exit {A = A} code)
unfolding exit syscall
exit-Goes code = record { run = λ m w s. (_, refl) }

execve-Goes :
    {B : Type 0} (filename : Bytes) (argv envp : List Bytes) {q : ℤ → M B}
    → ((ret : ℤ) → Goes (q ret))
    → Goes (execve filename argv envp >>= q)
unfolding execve syscall
execve-Goes {B} filename argv envp {q} kq = record {
  run = λ m w s. (after (is_neg _) (as_i32 _)).run m _ s;
}
  where
    after : (b : Bool) (ret : ℤ) → Goes ((if b then pure {A = ℤ} ret else stop gone) >>= q)
    after true ret = kq ret
    after false ret = record { run = λ m w s. (w, refl) }

write_fmt-Ends : (pieces : List Bytes) → Ends (write_fmt stderr pieces)
write_fmt-Ends pieces = record {
  run = λ m w s. let (v, e) = write_fmt-ok stderr pieces m w (inr refl) s in (true, v, e);
}

spawn_helper-Goes : (arg : SpawnHelperData) → Ends arg.pre_exec → Goes (spawn_helper arg)
unfolding spawn_helper
spawn_helper-Goes arg k = bind-Goes k (λ ready.
    if-Goes ready
      (execve-Goes arg.filename arg.argv arg.envp (λ ret.
        bind-Goes
          (if-Ends (is_neg ret) (write_fmt-Ends (with_value "failed to execve: " ret))
            (pure-Ends true))
          (λ _. exit-Goes (pos 1))))
      (exit-Goes (pos 1)))

run_child-Ends : (f : M (Unit {0})) → Goes f → Ends (run_child f)
unfolding run_child resume
run_child-Ends f k = record {
  run = λ m w s.
      let (v, e) = k.run m (record w { task = child }) s in
      (tt, record v { task = w.task }, rw e refl);
}

clone-Ends : (flags : ℕ) (f : M (Unit {0})) → Goes f → Ends (clone flags f)
unfolding clone
clone-Ends flags f k = bind-Ends (syscall-Ends 56 _) (λ r.
    if-Ends (is_neg r.ret) (pure-Ends (as_i32 r.ret))
      (bind-Ends (run_child-Ends f k) (λ _. pure-Ends (as_i32 r.ret))))

wait4-Ends : (pid : ℤ) (status : Arg) (options : ℕ) → Ends (wait4 pid status options)
unfolding wait4
wait4-Ends pid status options =
    bind-Ends (syscall-Ends 61 _) (λ r. pure-Ends (as_i32 r.ret, r.ints))

pub spawn_and_wait_with_pre_exec-Ends :
    (filename : Bytes) (argv envp : List Bytes) (pre_exec : M Bool)
    → Ends pre_exec
    → Ends (spawn_and_wait_with_pre_exec filename argv envp pre_exec)
unfolding spawn_and_wait_with_pre_exec spawn_with_pre_exec
spawn_and_wait_with_pre_exec-Ends filename argv envp pre_exec k =
    bind-Ends (clone-Ends _ _ (spawn_helper-Goes _ k)) (λ pid.
      if-Ends (is_neg pid) (pure-Ends (err pid)) (
        bind-Ends (wait4-Ends pid _ 0)
          (λ x. pure-Ends (if is_neg x.0 then err x.0 else ok (stored_status x.1)))))
