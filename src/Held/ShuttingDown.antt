-- ===== src/Held/ShuttingDown.antt =====
-- Descriptors in the shutdown of src/main.rs and src/shutdown.rs.
use ginit.Base.{
  ℕ, zero, suc, ◌|||◌, ◌-◌, leb, ◌≡◌, ℤ, pos, neg, is_neg, not, eq_ℤ, ltb_ℤ, as_i32, as_u64,
  try_u32, true, false, Bytes, [], ◌∷◌, Option, some, none, slice, c_str, text, zeros, refl,
}
use ginit.Machine.{null, parent, World, Machine, done, M, spent, ◌>>=◌}
use ginit.Config.{Config}
use ginit.Linux.Consts.{o_creat, o_wronly, o_trunc, echild, eintr, sigterm, esrch}
use ginit.Linux.Calls.{kill, umount, reboot}
use ginit.Linux.Console.{stdout, stderr, with_value, writeln, with_fd}
use ginit.Linux.Spawn.{Result, ok, err, spawn_and_wait_with_pre_exec}
use ginit.Shutdown.{
  wait_loop, end_all_processes, find_start, unmount_one, or_panic, unmount_loop, unmount_all,
  power_off,
}
use ginit.Main.{dmesg_pre_exec, report_dmesg, write_kernel_log, graceful_shutdown, run_event_loop}
use ginit.Held.{pushed, held, Post, Keeps, Preserves, Quiet}
use ginit.Held.Rules.{bind-Keeps, syscall-Keeps, pure-Keeps, stop-Keeps, if-Keeps, then-Preserves}
use ginit.Held.Child.{bind-Quiet, pure-Quiet, if-Quiet, writeln-Quiet, unwrap-Quiet}
use ginit.Held.Console.{sync-Preserves, panic-Keeps, writeln-Preserves}
use ginit.Held.Files.{open_file-Keeps, scope-Keeps, read_mounts-Preserves}
use ginit.Held.Boot.{dup2-Quiet}
use ginit.Held.EventLoop.{run_event_loop-Preserves}
use ginit.Held.Spawn.{wait4-Preserves, spawn_and_wait_with_pre_exec-Preserves}
use mathlib.Core.Path.{subst}

wait_loop-Preserves : (fuel : ℕ) → Preserves (wait_loop fuel)
unfolding wait_loop
wait_loop-Preserves zero h = stop-Keeps spent (λ w. tt)
wait_loop-Preserves (suc fuel) h = bind-Keeps (wait4-Preserves (neg 1) null 0 h) (λ (ret, ints).
    if-Keeps (eq_ℤ ret (neg echild)) (pure-Keeps tt (λ _. h) refl) (
      if-Keeps (eq_ℤ ret (neg eintr)) (wait_loop-Preserves fuel h) (
        if-Keeps (is_neg ret)
          (writeln-Preserves stderr (with_value "failed to kill processes: " ret) h)
          (wait_loop-Preserves fuel h))))

kill-Preserves : (pid : ℤ) (signal : ℕ) → Preserves (kill pid signal)
unfolding kill
kill-Preserves pid signal h =
    bind-Keeps (syscall-Keeps 62 _ h) (λ r. pure-Keeps (as_i32 r.ret) (λ _. h) refl)

end_all_processes-Preserves : (fuel : ℕ) → Preserves (end_all_processes fuel)
unfolding end_all_processes
end_all_processes-Preserves fuel h = bind-Keeps (kill-Preserves (neg 1) sigterm h) (λ ret.
    if-Keeps (is_neg ret)
      (if-Keeps (not (eq_ℤ ret (neg esrch)))
        (writeln-Preserves stderr (with_value "failed to broadcast SIGTERM: " ret) h)
        (pure-Keeps tt (λ _. h) refl))
      (wait_loop-Preserves fuel h))

unmount_one-Preserves : (name : Bytes) → Preserves (unmount_one name)
unfolding unmount_one umount
unmount_one-Preserves name h =
    bind-Keeps (bind-Keeps (syscall-Keeps 166 _ h) (λ r. pure-Keeps (as_i32 r.ret) (λ _. h) refl))
      (λ ret.
        if-Keeps (ltb_ℤ ret (neg 1))
          (writeln-Preserves stderr (with_value "failed unmount FS: " ret) h)
          (pure-Keeps tt (λ _. h) refl))

or_panic-Preserves : {A : Type 0} (o : Option A) → Preserves (or_panic o)
unfolding or_panic
or_panic-Preserves none h = panic-Keeps _ h (λ _. h)
or_panic-Preserves (some a) h = pure-Keeps a (λ _. h) refl

unmount_loop-Preserves :
    (fuel : ℕ) (mounts : Bytes) (end : ℕ) → Preserves (unmount_loop fuel mounts end)
unfolding unmount_loop
unmount_loop-Preserves zero mounts end h = stop-Keeps spent (λ w. tt)
unmount_loop-Preserves (suc fuel) mounts end h =
    if-Keeps (leb 2 end)
      (bind-Keeps (or_panic-Preserves (find_start mounts (end - 2)) h) (λ start.
        bind-Keeps (or_panic-Preserves (slice start end mounts) h) (λ name.
          then-Preserves (unmount_one-Preserves (c_str name))
            (unmount_loop-Preserves fuel mounts start h))))
      (pure-Keeps tt (λ _. h) refl)

unmount_all-Preserves : (fuel : ℕ) → Preserves (unmount_all fuel)
unfolding unmount_all
unmount_all-Preserves fuel h = bind-Keeps (read_mounts-Preserves fuel (zeros 256) h) (λ (n, mounts).
    if-Keeps (is_neg n) (writeln-Preserves stderr (with_value "failed to read mounts: " n) h)
      (unmount_loop-Preserves 256 mounts (as_u64 n) h))

power_off-Preserves : Preserves power_off
unfolding power_off reboot
power_off-Preserves h =
    bind-Keeps (bind-Keeps (syscall-Keeps 169 _ h) (λ r. pure-Keeps (as_i32 r.ret) (λ _. h) refl))
      (λ ret. pure-Keeps tt (λ _. h) refl)

dmesg_pre_exec-Quiet : (fd : ℕ) → Quiet (dmesg_pre_exec fd)
unfolding dmesg_pre_exec
dmesg_pre_exec-Quiet fd = bind-Quiet (unwrap-Quiet (try_u32 (pos fd))) (λ n.
    bind-Quiet (dup2-Quiet n 1) (λ ret.
      if-Quiet (is_neg ret)
        (bind-Quiet (writeln-Quiet stderr (with_value "failed to dup log FD for dmesg: " ret))
          (λ _. pure-Quiet false))
        (pure-Quiet true)))

report_dmesg-Preserves : (r : Result ℤ) → Preserves (report_dmesg r)
unfolding report_dmesg
report_dmesg-Preserves (ok code) h =
    if-Keeps (not (eq_ℤ code (pos 0)))
      (writeln-Preserves stderr (with_value "dmesg exited with code " code) h)
      (pure-Keeps tt (λ _. h) refl)
report_dmesg-Preserves (err e) h =
    writeln-Preserves stderr (with_value "failed to spawn dmesg: " e) h

log_to-Preserves :
    (fd : ℕ)
    → Preserves (do
      r ←
          spawn_and_wait_with_pre_exec
            (text "/bin/dmesg")
            (text "/bin/dmesg" ∷ [])
            []
            (dmesg_pre_exec fd)
      report_dmesg r)
log_to-Preserves fd h =
    bind-Keeps
      (spawn_and_wait_with_pre_exec-Preserves (text "/bin/dmesg") (text "/bin/dmesg" ∷ []) [] _
        (dmesg_pre_exec-Quiet fd) h)
      (λ r. report_dmesg-Preserves r h)

write_kernel_log-Preserves : Preserves write_kernel_log
unfolding write_kernel_log
write_kernel_log-Preserves h =
    bind-Keeps (open_file-Keeps _ (o_creat ||| o_wronly ||| o_trunc) 0o600 h)
      (λ ret. next ret (try_u32 ret))
  where
    next :
        (ret : ℤ) (o : Option ℕ)
        → Keeps
            (pushed o h)
            (elim o [
              | none ↦ writeln stderr (with_value "failed to open /var/log/dmesg: " ret)
              | some fd ↦ with_fd fd (do
                r ←
                    spawn_and_wait_with_pre_exec
                      (text "/bin/dmesg")
                      (text "/bin/dmesg" ∷ [])
                      []
                      (dmesg_pre_exec fd)
                report_dmesg r)
            ])
            (λ _. h)
    next ret none = writeln-Preserves stderr (with_value "failed to open /var/log/dmesg: " ret) h
    next ret (some fd) = scope-Keeps fd h (log_to-Preserves fd)

graceful_shutdown-Preserves : (fuel : ℕ) → Preserves (graceful_shutdown fuel)
unfolding graceful_shutdown
graceful_shutdown-Preserves fuel h =
    then-Preserves (writeln-Preserves stdout (text "shutting down...\n" ∷ [])) (
      then-Preserves write_kernel_log-Preserves (
        then-Preserves sync-Preserves (
          then-Preserves (end_all_processes-Preserves fuel)
            (then-Preserves (unmount_all-Preserves fuel) (power_off-Preserves h)))))

-- The descriptors at the end of a run that gives a result.
of_done :
    {A : Type 0} (p : M A) (m : Machine) (w w' : World) (a : A)
    → Preserves p
    → w.task ≡ parent
    → p m w ≡ (done a, w')
    → held w'.history ≡ held w.history
of_done p m w w' a k t e =
    (subst (Post (λ _. held w.history)) e ((k (held w.history)).run m w (t, refl))).1

-- Whatever the kernel answers, if the event loop of the first process comes to its end, the
-- process holds the descriptors that it held before: those of the signals, of the seat server, of
-- the compositor, of the devices and of the network are closed, on every path to the end.
pub held-run_event_loop :
    (m : Machine) (fuel : ℕ) (cfg : Config) (w w' : World)
    → w.task ≡ parent
    → run_event_loop fuel cfg m w ≡ (done tt, w')
    → held w'.history ≡ held w.history
held-run_event_loop m fuel cfg w w' =
    of_done (run_event_loop fuel cfg) m w w' tt (run_event_loop-Preserves fuel cfg)

-- Whatever the kernel answers, if the shutdown in the first process comes to its end, the process
-- holds the descriptors that it held before: the log of the kernel and the file of the mounts are
-- closed.
pub held-graceful_shutdown :
    (m : Machine) (fuel : ℕ) (w w' : World)
    → w.task ≡ parent
    → graceful_shutdown fuel m w ≡ (done tt, w')
    → held w'.history ≡ held w.history
held-graceful_shutdown m fuel w w' =
    of_done (graceful_shutdown fuel) m w w' tt (graceful_shutdown-Preserves fuel)
