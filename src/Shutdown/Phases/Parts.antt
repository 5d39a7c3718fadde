-- ===== src/Shutdown/Phases/Parts.antt =====
-- The parts of graceful_shutdown of src/main.rs that make none of the three calls: the log of the
-- kernel, the mounts file, the wait.
use ginit.Base.{
  ℕ, zero, suc, ℤ, pos, negsuc, neg, is_neg, eq_ℤ, try_i32, try_u32, true, false, not, Bytes, [],
  ◌∷◌, Option, none, some, text, zeros, if◌then◌else◌,
}
use ginit.Machine.{spent, M, pure, ◌>>=◌, out_of_bounds, null}
use ginit.Linux.Consts.{esrch, echild, eintr, o_rdonly}
use ginit.Linux.Console.{stderr, writeln, with_value, with_fd}
use ginit.Linux.Spawn.{Result, ok, err, spawn_and_wait_with_pre_exec}
use ginit.Mounts.{
  Parser, Flow, again, broke, returned, faulted, ran_out, after_chunk, on_read, read_loop,
  read_mounts_from_fd, read_mounts,
}
use ginit.Shutdown.{wait_loop, or_panic}
use ginit.Main.{dmesg_pre_exec, report_dmesg, write_kernel_log}
use ginit.Shutdown.Phases.{Unmarked}
use ginit.Shutdown.Phases.Others.{
  bind-Unmarked, pure-Unmarked, stop-Unmarked, if-Unmarked, panic-Unmarked, writeln-Unmarked,
  unwrap-Unmarked, with_fd-Unmarked, open_file-Unmarked, dup2-Unmarked, read-Unmarked,
  wait4-Unmarked, spawn_and_wait_with_pre_exec-Unmarked,
}

after_chunk-Unmarked :
    (o : Flow) (next : Parser → M (ℤ × Bytes))
    → ((p : Parser) → Unmarked (next p))
    → Unmarked (after_chunk o next)
unfolding after_chunk
after_chunk-Unmarked (broke p) next k = k p
after_chunk-Unmarked (returned e out) next k = pure-Unmarked (e, out)
after_chunk-Unmarked (again p x) next k = stop-Unmarked spent
after_chunk-Unmarked faulted next k = panic-Unmarked out_of_bounds
after_chunk-Unmarked ran_out next k = stop-Unmarked spent

on_read-Unmarked :
    (ret : ℤ) (buf : Bytes) (p : Parser) (next : Parser → M (ℤ × Bytes))
    → ((p' : Parser) → Unmarked (next p'))
    → Unmarked (on_read ret buf p next)
unfolding on_read
on_read-Unmarked (pos zero) buf p next k =
    bind-Unmarked (unwrap-Unmarked (try_i32 (pos p.cursor))) (λ n. pure-Unmarked (n, p.out))
on_read-Unmarked (negsuc e) buf p next k =
    bind-Unmarked (unwrap-Unmarked (try_i32 (negsuc e))) (λ n. pure-Unmarked (n, p.out))
on_read-Unmarked (pos (suc n)) buf p next k = after_chunk-Unmarked _ next k

read_loop-Unmarked : (fuel fd : ℕ) (p : Parser) → Unmarked (read_loop fuel fd p)
unfolding read_loop
read_loop-Unmarked zero fd p = stop-Unmarked spent
read_loop-Unmarked (suc fuel) fd p =
    bind-Unmarked (read-Unmarked fd (zeros 256))
      (λ x. on_read-Unmarked x.0 x.1 p _ (read_loop-Unmarked fuel fd))

pub read_mounts-Unmarked : (fuel : ℕ) (out : Bytes) → Unmarked (read_mounts fuel out)
unfolding read_mounts read_mounts_from_fd
read_mounts-Unmarked fuel out = bind-Unmarked (open_file-Unmarked _ o_rdonly 0) (λ fd.
    if-Unmarked (is_neg fd) (pure-Unmarked (fd, out)) (
      bind-Unmarked (unwrap-Unmarked (try_u32 fd))
        (λ n. with_fd-Unmarked n (read_loop-Unmarked fuel n _))))

dmesg_pre_exec-Unmarked : (fd : ℕ) → Unmarked (dmesg_pre_exec fd)
unfolding dmesg_pre_exec
dmesg_pre_exec-Unmarked fd = bind-Unmarked (unwrap-Unmarked (try_u32 (pos fd))) (λ n.
    bind-Unmarked (dup2-Unmarked n 1) (λ ret.
      if-Unmarked (is_neg ret)
        (bind-Unmarked (writeln-Unmarked stderr _) (λ _. pure-Unmarked false))
        (pure-Unmarked true)))

report_dmesg-Unmarked : (r : Result ℤ) → Unmarked (report_dmesg r)
unfolding report_dmesg
report_dmesg-Unmarked (ok code) =
    if-Unmarked (not (eq_ℤ code (pos 0))) (writeln-Unmarked stderr _) (pure-Unmarked tt)
report_dmesg-Unmarked (err e) = writeln-Unmarked stderr _

pub write_kernel_log-Unmarked : Unmarked write_kernel_log
unfolding write_kernel_log
write_kernel_log-Unmarked =
    bind-Unmarked (open_file-Unmarked _ _ 0o600) (λ ret. logged (try_u32 ret) ret)
  where
    logged :
        (o : Option ℕ) (ret : ℤ)
        → Unmarked (elim o [
          | none ↦ writeln stderr (with_value "failed to open /var/log/dmesg: " ret)
          | some fd ↦ with_fd fd (do
            r ←
                spawn_and_wait_with_pre_exec
                  (text "/bin/dmesg")
                  (text "/bin/dmesg" ∷ [])
                  []
                  (dmesg_pre_exec fd)
            report_dmesg r)
        ])
    logged none ret = writeln-Unmarked stderr _
    logged (some fd) ret = with_fd-Unmarked fd (
        bind-Unmarked (spawn_and_wait_with_pre_exec-Unmarked _ _ _ _ (dmesg_pre_exec-Unmarked fd))
          report_dmesg-Unmarked)

wait_loop-Unmarked : (fuel : ℕ) → Unmarked (wait_loop fuel)
unfolding wait_loop
wait_loop-Unmarked zero = stop-Unmarked spent
wait_loop-Unmarked (suc fuel) = bind-Unmarked (wait4-Unmarked (neg 1) null 0) (λ x.
    if-Unmarked (eq_ℤ x.0 (neg echild)) (pure-Unmarked tt) (
      if-Unmarked (eq_ℤ x.0 (neg eintr)) (wait_loop-Unmarked fuel)
        (if-Unmarked (is_neg x.0) (writeln-Unmarked stderr _) (wait_loop-Unmarked fuel))))

pub after_kill-Unmarked :
    (fuel : ℕ) (ret : ℤ)
    → Unmarked (
        if is_neg ret
        then (if not (eq_ℤ ret (neg esrch))
            then writeln stderr (with_value "failed to broadcast SIGTERM: " ret)
            else pure tt)
        else wait_loop fuel)
after_kill-Unmarked fuel ret =
    if-Unmarked (is_neg ret)
      (if-Unmarked (not (eq_ℤ ret (neg esrch))) (writeln-Unmarked stderr _) (pure-Unmarked tt))
      (wait_loop-Unmarked fuel)

pub or_panic-Unmarked : {A : Type 0} (o : Option A) → Unmarked (or_panic o)
unfolding or_panic
or_panic-Unmarked none = panic-Unmarked out_of_bounds
or_panic-Unmarked (some a) = pure-Unmarked a
