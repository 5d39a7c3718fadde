-- ===== src/Main.antt =====
-- src/main.rs: the entry point, the event loop and the shutdown. Each loop over outside events
-- takes the fuel of the whole run.
pub mod Loop
pub mod Reaping
pub mod Rounds
use ginit.Base.{
  ℕ, zero, suc, ◌-◌, ◌^◌, ◌==◌, ◌|||◌, ◌&◌, ltb, String, ℤ, pos, negsuc, neg, is_neg, eq_ℤ, try_i32,
  try_u32, Bool, true, false, not, ◌&&◌, List, [], ◌∷◌, none, some, text, zeros, if◌then◌else◌,
}
use ginit.Machine.{space, M, pure, stop, spent, ◌>>=◌, ◌>>◌}
use ginit.Config.{Config, mount_early, mount_late}
use ginit.Linux.Consts.{
  o_wronly, o_creat, o_trunc, sigchld, sig_block, sfd_cloexec, sfd_nonblock, pollin, pollerr,
  pollnval, eagain, wnohang,
}
use ginit.Linux.Calls.{
  open_file, dup2, close, sync, symlink, rt_sigprocmask, signalfd4, poll, read, wait4, exit,
}
use ginit.Linux.Console.{stdout, stderr, with_value, writeln, warn_if_neg, unwrap, with_fd}
use ginit.Linux.Spawn.{Result, ok, err, spawn_and_wait_with_pre_exec}
use ginit.Main.Loop.{event_loop}
use ginit.Net.{setup_networking}
use ginit.Seat
use ginit.Seat.{SeatServer, process_incoming}
use ginit.Shutdown.{end_all_processes, unmount_all, power_off}
use ginit.Sysctl.{apply_sysctl}
use ginit.Ui.{add_dri_render_permissions, set_backlight_brightness, start_ui_process}

unfoldable pub late_init : ℕ → Config → M (Unit {0})
late_init fuel cfg = do
  apply_sysctl
  ret ← mount_late cfg
  warn_if_neg "failed to mount late FS: " ret
  ret' ← setup_networking fuel fuel cfg
  warn_if_neg "failed to setup networking: " ret'

-- A call whose result is not looked at, made only where the test holds.
unfoldable pub when : Bool → M ℤ → M (Unit {0})
when true call = do ret ← call; pure tt
when false call = pure tt

unfoldable pub redirect_stdout : M (Unit {0})
unfolding when
redirect_stdout = do
  ret ← open_file (text "/var/log/boot") (o_wronly ||| o_creat ||| o_trunc) 0o600
  elim (try_u32 ret) [
    | none ↦ pure tt
    | some fd ↦ do
      when (not (fd == 1)) (dup2 fd 1)
      when (not (fd == 2)) (dup2 fd 2)
      when (not (fd == 1) && not (fd == 2)) (close fd)
  ]

unfoldable pub dmesg_pre_exec : ℕ → M Bool
dmesg_pre_exec fd = do
  n ← unwrap (try_u32 (pos fd))
  ret ← dup2 n 1
  if is_neg ret
      then (do writeln stderr (with_value "failed to dup log FD for dmesg: " ret); pure false)
      else pure true

unfoldable pub report_dmesg : Result ℤ → M (Unit {0})
report_dmesg (ok code) =
    if not (eq_ℤ code (pos 0))
    then writeln stderr (with_value "dmesg exited with code " code)
    else pure tt
report_dmesg (err e) = writeln stderr (with_value "failed to spawn dmesg: " e)

unfoldable pub write_kernel_log : M (Unit {0})
write_kernel_log = do
  ret ← open_file (text "/var/log/dmesg") (o_creat ||| o_wronly ||| o_trunc) 0o600
  elim (try_u32 ret) [
    | none ↦ writeln stderr (with_value "failed to open /var/log/dmesg: " ret)
    | some fd ↦ with_fd fd (do
      r ←
          spawn_and_wait_with_pre_exec (text "/bin/dmesg") (text "/bin/dmesg" ∷ []) []
            (dmesg_pre_exec fd)
      report_dmesg r)
  ]

-- Shuts down the system while making sure that no progress will be lost.
unfoldable pub graceful_shutdown : ℕ → M (Unit {0})
graceful_shutdown fuel = do
  writeln stdout (text "shutting down...\n" ∷ [])
  write_kernel_log
  sync
  end_all_processes fuel
  unmount_all fuel
  power_off

unfoldable pub link : String → String → String → M (Unit {0})
link old_name new_name message = do
  ret ← symlink (text old_name) (text new_name)
  warn_if_neg message ret

unfoldable pub create_dev_symlinks : M (Unit {0})
unfolding link
create_dev_symlinks = do
  link "/proc/self/fd" "/dev/fd" "failed to symlink /dev/fd: "
  link "/proc/self/fd/0" "/dev/stdin" "failed to symlink /dev/stdin: "
  link "/proc/self/fd/1" "/dev/stdout" "failed to symlink /dev/stdout: "
  link "/proc/self/fd/2" "/dev/stderr" "failed to symlink /dev/stderr: "

-- From the start of the user interface on.
unfoldable pub run_ui : ℕ → Config → ℕ → SeatServer → ℕ → M (Unit {0})
run_ui fuel cfg signalfd server compositor_fd = do
  ui_child_pid ← start_ui_process cfg compositor_fd
  if is_neg ui_child_pid
      then writeln stderr (with_value "failed to start UI process: " ui_child_pid)
      else (do late_init fuel cfg; event_loop fuel fuel signalfd server ui_child_pid)

-- The locals are dropped in the reverse order of their declaration.
unfoldable pub run_seat : ℕ → Config → ℕ → M (Unit {0})
run_seat fuel cfg signalfd = do
  r ← Seat.new
  elim r [
    | err e ↦ writeln stderr (with_value "failed to create seat server: " e)
    | ok (server, compositor_fd) ↦
        with_fd server.fd (with_fd compositor_fd (run_ui fuel cfg signalfd server compositor_fd))
  ]

-- `1 << (linux::SIGCHLD - 1)`
abbrev pub sigchld_mask : ℕ
sigchld_mask = 2 ^ (sigchld - 1)

unfoldable pub run_event_loop : ℕ → Config → M (Unit {0})
unfolding run_seat run_ui
run_event_loop fuel cfg = do
  ret ← rt_sigprocmask sig_block sigchld_mask 8
  warn_if_neg "failed to block SIGCHLD: " ret
  signalfd ← signalfd4 (neg 1) sigchld_mask (sfd_cloexec ||| sfd_nonblock)
  if is_neg signalfd
      then writeln stderr (with_value "failed to create SIGCHLD signalfd: " signalfd)
      else (do n ← unwrap (try_u32 signalfd); with_fd n (run_seat fuel cfg n))

-- `_start`
unfoldable pub start : ℕ → Config → M (Unit {0})
start fuel cfg = do
  redirect_stdout
  writeln stdout (text "booting...\n" ∷ [])
  ret ← mount_early cfg
  warn_if_neg "failed to mount early FS: " ret
  create_dev_symlinks
  add_dri_render_permissions cfg
  set_backlight_brightness
  run_event_loop fuel cfg
  graceful_shutdown fuel
  exit (pos 0)
