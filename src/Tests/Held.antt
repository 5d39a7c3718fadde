-- ===== src/Tests/Held.antt =====
-- The event loop and the shutdown of src/main.rs under a kernel that answers by the call's number.
use ginit.Base.{
  ℕ, ◌==◌, ◌≡◌, refl, ap, pos, neg, as_i32, as_u64, try_i32, try_u32, text, zeros, [], ◌∷◌,
  if◌then◌else◌,
}
use ginit.Machine.{Machine, World, Reply, done}
use ginit.Config.{Config}
use ginit.Held.{held}
use ginit.Held.ShuttingDown.{held-run_event_loop, held-graceful_shutdown}
use ginit.Main.{run_event_loop, graceful_shutdown}
use ginit.Seat
use ginit.Net
use ginit.Machine.{syscall}
use ginit.Config.{mount_each, mount_late}
use ginit.Linux.Calls.{
  chdir, chown, close, dup2, execve, exit, fcntl, kill, mkdir, open_file, poll, read, reboot,
  rt_sigprocmask, setgid, setgroups, setuid, signalfd4, socket, socketpair, sync, syscall_0,
  syscall_1, syscall_2, syscall_3, syscall_4, syscall_5, wait4, write,
}
use ginit.Linux.Console.{
  decimal, display, drop_fd, panic, warn_if_neg, with_fd, with_value, write_fmt, write_str, writeln,
}
use ginit.Linux.Spawn.{
  clone, create_socket_pair, resume, run_child, spawn, spawn_and_wait_with_pre_exec, spawn_helper,
  spawn_with_pre_exec,
}
use ginit.Main.{dmesg_pre_exec, late_init, report_dmesg, run_seat, run_ui, write_kernel_log}
use ginit.Main.Loop.{dispatch, event_loop, round}
use ginit.Mounts.{on_read, read_loop, read_mounts, read_mounts_from_fd}
use ginit.Net.{
  ack_error, address_of, admin_up_of, after_scan, bring_interface_admin_up, configure, for_each,
  next_seq, route_of, scan, send_and_ack, setup_networking, start_iwd,
}
use ginit.Seat.{after_mark, after_pair, mark_fd}
use ginit.Shutdown.{end_all_processes, power_off, unmount_all, unmount_loop, wait_loop}
use ginit.Sysctl.{apply_each, apply_sysctl, open_and_write}
use ginit.Ui.{create_xdg_runtime_dir, move_fd, or_fail, start_ui_process, ui_process_pre_exec}
use ginit.Tests.Script.{returns, fresh}

-- A pair of sockets, an error of `poll`, no children, and three new descriptors.
abbrev by_number : ℕ → Reply
by_number num =
    if num == 53
    then record { ret = pos 0; stored = []; ints = pos 4 ∷ pos 5 ∷ []; masks = [] }
    else if num == 7
    then returns (neg 4)
    else if num == 61
    then returns (neg 10)
    else if num == 289
    then returns (pos 3)
    else if num == 2
    then returns (pos 6)
    else if num == 41
    then returns (pos 7)
    else returns (pos 0)

abbrev kernel : Machine
kernel = record { kernel = λ w call. by_number call.num; panic_text = λ p. []; padding = λ n. [] }

abbrev cfg : Config
cfg = record {
  net_interfaces = [];
  user_home = [];
  user_uid = 1000;
  user_gid = 1000;
  user_groups = 1000 ∷ [];
  sway_envp = [];
  xdg_runtime_dir = [];
  mounts = [];
}

after_loop : World
after_loop = (run_event_loop 2 cfg kernel fresh).1

after_shutdown : World
after_shutdown = (graceful_shutdown 2 kernel fresh).1

loop_result : (run_event_loop 2 cfg kernel fresh).0 ≡ done tt
unfolding writeln warn_if_neg with_fd drop_fd panic write_fmt write_str with_value display decimal
    write read close syscall syscall_0 syscall_1 syscall_2 syscall_3 syscall_4 syscall_5 as_i32
    as_u64 try_i32 try_u32 text zeros clone run_child resume spawn_helper spawn_with_pre_exec execve
    exit open_file wait4 dup2 run_event_loop run_seat run_ui rt_sigprocmask signalfd4 Seat.new
    create_socket_pair socketpair fcntl after_pair after_mark mark_fd start_ui_process
    create_xdg_runtime_dir mkdir chown ui_process_pre_exec move_fd or_fail setgid setgroups setuid
    chdir late_init apply_sysctl apply_each open_and_write mount_late mount_each setup_networking
    Net.new socket configure for_each address_of admin_up_of route_of bring_interface_admin_up
    next_seq send_and_ack ack_error Net.on_recv after_scan scan start_iwd spawn event_loop round
    poll dispatch
loop_result = refl

loop_ends : run_event_loop 2 cfg kernel fresh ≡ (done tt, after_loop)
unfolding after_loop
loop_ends = ap (λ o. (o, after_loop)) loop_result

shutdown_result : (graceful_shutdown 2 kernel fresh).0 ≡ done tt
unfolding writeln warn_if_neg with_fd drop_fd panic write_fmt write_str with_value display decimal
    write read close syscall syscall_0 syscall_1 syscall_2 syscall_3 syscall_4 syscall_5 as_i32
    as_u64 try_i32 try_u32 text zeros clone run_child resume spawn_helper spawn_with_pre_exec execve
    exit open_file wait4 dup2 graceful_shutdown write_kernel_log spawn_and_wait_with_pre_exec
    dmesg_pre_exec report_dmesg sync end_all_processes kill wait_loop unmount_all read_mounts
    read_mounts_from_fd read_loop on_read unmount_loop power_off reboot
shutdown_result = refl

shutdown_ends : graceful_shutdown 2 kernel fresh ≡ (done tt, after_shutdown)
unfolding after_shutdown
shutdown_ends = ap (λ o. (o, after_shutdown)) shutdown_result

held-run_event_loop_example : held after_loop.history ≡ []
unfolding held
held-run_event_loop_example = held-run_event_loop kernel 2 cfg fresh after_loop refl loop_ends

held-graceful_shutdown_example : held after_shutdown.history ≡ []
unfolding held
held-graceful_shutdown_example =
    held-graceful_shutdown kernel 2 fresh after_shutdown refl shutdown_ends
