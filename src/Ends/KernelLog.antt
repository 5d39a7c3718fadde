-- ===== src/Ends/KernelLog.antt =====
-- write_kernel_log of src/main.rs.
use ginit.Base.{
  ℕ, ◌<◌, ◌^◌, inr, refl, ℤ, pos, negsuc, is_neg, eq_ℤ, not, InI32, try_u32, lt→ltb, true, false,
  [], ◌∷◌, none, some, text, arith,
}
use ginit.Machine.{◌>>=◌}
use ginit.Linux.Calls.{open_file}
use ginit.Linux.Console.{stderr, writeln, with_value, with_fd}
use ginit.Linux.Spawn.{Result, ok, err, spawn_and_wait_with_pre_exec}
use ginit.Main.{dmesg_pre_exec, report_dmesg, write_kernel_log}
use ginit.Ends.{Ends, bind-Ends, pure-Ends, if-Ends, call-Ends, writeln-Ends, with_fd-Ends}
use ginit.Ends.Boot.{dup2-Ends}
use ginit.Ends.Spawn.{spawn_and_wait_with_pre_exec-Ends}

dmesg_pre_exec-Ends : (fd : ℕ) → fd < 2 ^ 32 → Ends (dmesg_pre_exec fd)
unfolding dmesg_pre_exec try_u32
dmesg_pre_exec-Ends fd l = rw (lt→ltb fd (2 ^ 32) l) (
    bind-Ends (dup2-Ends fd 1) (λ ret.
      if-Ends (is_neg ret) (bind-Ends (writeln-Ends stderr _ (inr refl)) (λ _. pure-Ends false))
        (pure-Ends true)))

report_dmesg-Ends : (r : Result ℤ) → Ends (report_dmesg r)
unfolding report_dmesg
report_dmesg-Ends (ok code) =
    if-Ends (not (eq_ℤ code (pos 0))) (writeln-Ends stderr _ (inr refl)) (pure-Ends tt)
report_dmesg-Ends (err e) = writeln-Ends stderr _ (inr refl)

pub write_kernel_log-Ends : Ends write_kernel_log
unfolding write_kernel_log open_file try_u32
write_kernel_log-Ends = call-Ends 2 _ logged
  where
    logged :
        (ret : ℤ)
        → InI32 ret
        → Ends (elim (try_u32 ret) [
          | none ↦ writeln stderr (with_value "failed to open /var/log/dmesg: " ret)
          | some fd ↦ with_fd fd (do
            r ←
                spawn_and_wait_with_pre_exec
                  (text "/bin/dmesg")
                  (text "/bin/dmesg" ∷ [])
                  []
                  (dmesg_pre_exec fd)
            report_dmesg r)
        ])
    logged (negsuc n) l = writeln-Ends stderr _ (inr refl)
    logged (pos n) l =
        let fits : n < 2 ^ 32 = omega arith in
        rw (lt→ltb n (2 ^ 32) fits) (
          with_fd-Ends n (
            bind-Ends (spawn_and_wait_with_pre_exec-Ends _ _ _ _ (dmesg_pre_exec-Ends n fits))
              report_dmesg-Ends))
