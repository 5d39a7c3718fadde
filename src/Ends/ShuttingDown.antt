-- ===== src/Ends/ShuttingDown.antt =====
-- The shutdown of src/main.rs, from its message to the call of `reboot`.
use mathlib.Core.List.{reverse-reverse}
use ginit.Base.{
  ap, ◌∙◌, map, ℕ, ◌<◌, ◌^◌, ◌≡◌, inl, inr, refl, ℤ, pos, negsuc, neg, is_neg, eq_ℤ, ltb_ℤ, not,
  as_i32, Bytes, List, [], ◌∷◌, ◌++◌, length, flatten, text, reverse, if◌then◌else◌,
}
use ginit.Machine.{World, Machine, done, pure}
use ginit.Linux.Consts.{o_rdonly, echild, esrch, sigterm}
use ginit.Linux.Calls.{open_file, sync, kill, umount, reboot}
use ginit.Linux.Console.{stdout, stderr, writeln, with_value, drop_fd}
use ginit.Mounts.{before_directory}
use ginit.Mounts.File.{Delivers}
use ginit.Mounts.Lines.{MountLine, lines_then, AreLines, terminated, dirs, CutsClean}
use ginit.Shutdown.{wait_loop, end_all_processes, unmount_one, unmount_all, power_off}
use ginit.Shutdown.Reap.{Waits, wait_loop-echild}
use ginit.Shutdown.Unmount.{unmount_each, ArePaths}
use ginit.Shutdown.Mounted.{unmount_all-lines}
use ginit.Shutdown.Phases.{step_calls}
use ginit.Shutdown.Phases.Others.{
  writeln-Unmarked, sync-Unmarked, open_file-Unmarked, drop_fd-Unmarked,
}
use ginit.Shutdown.Phases.Parts.{write_kernel_log-Unmarked}
use ginit.Shutdown.Phases.Calls.{
  kill_call, umount_call, reboot_call, step_calls-behind, end_all_processes-step_calls,
  unmount_one-step_calls, power_off-step_calls, Delivers-step_calls, umounts-reverse,
}
use ginit.Main.{write_kernel_log, graceful_shutdown}
use ginit.Ends.{
  Speaks, ResultOf, Ends, bind-Ends, pure-Ends, if-Ends, syscall-Ends, call-Ends, writeln-Ends,
}
use ginit.Ends.KernelLog.{write_kernel_log-Ends}

sync-Ends : Ends sync
unfolding sync
sync-Ends = bind-Ends (syscall-Ends 162 _) (λ _. pure-Ends tt)

unmount_one-Ends : (name : Bytes) → Ends (unmount_one name)
unfolding unmount_one umount
unmount_one-Ends name = call-Ends 166 _ (λ ret r.
    if-Ends (ltb_ℤ ret (neg 1))
      (writeln-Ends stderr (with_value "failed unmount FS: " ret) (inr refl)) (pure-Ends tt))

-- The umounts of a list: every path in its order, whatever the kernel answers.
unmount_each-result :
    (ds : List Bytes) (m : Machine) (w : World)
    → Speaks m
    → (v : World) × (unmount_each ds m w ≡ (done tt, v))
      × (step_calls v.history ≡ map umount_call (reverse ds) ++ step_calls w.history)
unfolding unmount_each
unmount_each-result [] m w s = (w, refl, refl)
unmount_each-result (d ∷ ds) m w s =
    let (a, u, e) = (unmount_one-Ends d).run m w s in
    let (v, e', made) = unmount_each-result ds m u s in
    let one = step_calls-behind (unmount_one d) m w u a _ e (unmount_one-step_calls d m w) in
    (
      v,
      rw e e',
      made
          ∙ ap (λ x. map umount_call (reverse ds) ++ x) one
          ∙ umounts-reverse d ds (step_calls w.history),
    )

power_off-Ends : Ends power_off
unfolding power_off reboot
power_off-Ends = call-Ends 169 _ (λ ret r. pure-Ends tt)

-- The waits come to -ECHILD before the fuel is spent.
pub record Collected (m : Machine) (fuel : ℕ) (w : World) : Type 0 where
  pub waits : ℕ
  pub after : World
  pub collects : Waits m (neg echild) w waits after
  pub enough : waits < fuel

-- The file of the mounts opens, delivers whole lines in chunks that end outside of the
-- directories, and closes; the directories of the lines are paths that fit into 255 bytes with their NULs, and
-- the fuel is more than the chunks.
pub record MountsFile (m : Machine) (fuel : ℕ) (lines : List MountLine) (w : World) : Type 0 where
  pub fd : ℕ
  pub after_open : World
  pub after_reads : World
  pub after_close : World
  pub chunks : List Bytes
  pub opens : open_file (text "/proc/mounts") o_rdonly 0 m w ≡ (done (pos fd), after_open)
  pub fd_fits : fd < 2 ^ 32
  pub delivers : Delivers m fd after_open chunks after_reads
  pub closes : drop_fd fd m after_reads ≡ (done tt, after_close)
  pub clean : CutsClean before_directory chunks
  pub whole : flatten chunks ≡ lines_then lines []
  pub are_lines : AreLines lines
  pub are_paths : ArePaths (dirs lines)
  pub enough : length chunks < fuel
  pub fit : length (terminated (dirs lines)) < 256

after_kill-ResultOf :
    (m : Machine) (fuel : ℕ) (w : World) (ret : ℤ)
    → Speaks m
    → Collected m fuel w
    → ResultOf
        (if is_neg ret
          then (if not (eq_ℤ ret (neg esrch))
              then writeln stderr (with_value "failed to broadcast SIGTERM: " ret)
              else pure tt)
          else wait_loop fuel)
        m
        w
after_kill-ResultOf m fuel w (negsuc e) s c =
    (if-Ends (not (eq_ℤ (negsuc e) (neg esrch))) (writeln-Ends stderr _ (inr refl))
        (pure-Ends tt)).run
      m w s
after_kill-ResultOf m fuel w (pos n) s c =
    (tt, c.after, wait_loop-echild m fuel c.waits w c.after c.collects c.enough)

kill-Ends : (pid : ℤ) (signal : ℕ) → Ends (kill pid signal)
unfolding kill
kill-Ends pid signal = bind-Ends (syscall-Ends 62 _) (λ r. pure-Ends (as_i32 r.ret))

end_all_processes-ResultOf :
    (m : Machine) (fuel : ℕ) (w : World)
    → Speaks m
    → ((v : World) → Collected m fuel v)
    → ResultOf (end_all_processes fuel) m w
unfolding end_all_processes
end_all_processes-ResultOf m fuel w s c =
    let (ret, v, e) = (kill-Ends (neg 1) sigterm).run m w s in
    rw e (after_kill-ResultOf m fuel v ret s (c v))

unmount_all-result :
    (m : Machine) (fuel : ℕ) (lines : List MountLine) (w : World)
    → Speaks m
    → MountsFile m fuel lines w
    → (v : World) × (unmount_all fuel m w ≡ (done tt, v))
      × (step_calls v.history ≡ map umount_call (dirs lines) ++ step_calls w.history)
unmount_all-result m fuel lines w s f =
    let (v, e, made) = unmount_each-result (reverse (dirs lines)) m f.after_close s in
    let opened =
      step_calls-behind (open_file (text "/proc/mounts") o_rdonly 0) m w f.after_open _ _ f.opens
        ((open_file-Unmarked (text "/proc/mounts") o_rdonly 0).run m w) in
    let read = Delivers-step_calls m f.fd f.after_open f.after_reads f.chunks f.delivers in
    let closed =
      step_calls-behind (drop_fd f.fd) m f.after_reads f.after_close tt _ f.closes
        ((drop_fd-Unmarked f.fd).run m f.after_reads) in
    (
      v,
      unmount_all-lines m f.fd fuel w f.after_open f.after_reads f.after_close f.chunks lines
            f.opens f.fd_fits f.delivers f.closes f.clean f.whole f.are_lines f.are_paths f.enough
            f.fit
          ∙ e,
      rw reverse-reverse at made
          ∙ ap (λ x. map umount_call (dirs lines) ++ x) (closed ∙ read ∙ opened),
    )

-- Where the machine takes what is written to the standard streams, where the waits come to -ECHILD
-- and the file of the mounts can be read, with fuel for both, the shutdown comes to its end,
-- whatever the kernel answers to its other calls. Of the calls that send a signal, unmount or
-- reboot it has made these, the last one first: that to power off, one `umount` of each directory
-- of the file, in the order of the file, so that the one that was mounted last is unmounted first,
-- and SIGTERM to every process.
pub graceful_shutdown-reboots :
    (m : Machine) (fuel : ℕ) (lines : List MountLine) (w : World)
    → Speaks m
    → ((v : World) → Collected m fuel v)
    → ((v : World) → MountsFile m fuel lines v)
    → (v : World) × (graceful_shutdown fuel m w ≡ (done tt, v))
      × (step_calls v.history
          ≡ reboot_call ∷ (map umount_call (dirs lines) ++ kill_call ∷ step_calls w.history))
unfolding graceful_shutdown
graceful_shutdown-reboots m fuel lines w s c f =
    let said = writeln stdout (text "shutting down...\n" ∷ []) in
    let (a1, w1, e1) =
      (writeln-Ends stdout (text "shutting down...\n" ∷ []) (inl refl)).run m w s in
    let (a2, w2, e2) = write_kernel_log-Ends.run m w1 s in
    let (a3, w3, e3) = sync-Ends.run m w2 s in
    let (a4, w4, e4) = end_all_processes-ResultOf m fuel w3 s c in
    let (w5, e5, unmounted) = unmount_all-result m fuel lines w4 s (f w4) in
    let (a6, w6, e6) = power_off-Ends.run m w5 s in
    let s1 = step_calls-behind said m w w1 a1 _ e1 ((writeln-Unmarked stdout _).run m w) in
    let s2 =
      step_calls-behind write_kernel_log m w1 w2 a2 _ e2 (write_kernel_log-Unmarked.run m w1) in
    let s3 = step_calls-behind sync m w2 w3 a3 _ e3 (sync-Unmarked.run m w2) in
    let s4 =
      step_calls-behind (end_all_processes fuel) m w3 w4 a4 _ e4
        (end_all_processes-step_calls fuel m w3) in
    let s6 = step_calls-behind power_off m w5 w6 a6 _ e6 (power_off-step_calls m w5) in
    (
      w6,
      rw (e1, e2, e3, e4, e5) e6,
      s6
          ∙ ap (λ x. reboot_call ∷ x) unmounted
          ∙ ap (λ x. reboot_call ∷ (map umount_call (dirs lines) ++ x))
              (s4 ∙ ap (λ x. kill_call ∷ x) (s3 ∙ s2 ∙ s1)),
    )
