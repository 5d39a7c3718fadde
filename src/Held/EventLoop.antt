-- ===== src/Held/EventLoop.antt =====
-- Descriptors in the event loop of src/main.rs.
use ginit.Base.{
  ℕ, zero, suc, ◌|||◌, ℤ, pos, neg, is_neg, eq_ℤ, as_i32, try_i32, Bool, true, false, List, [], ◌∷◌,
  zeros, if◌then◌else◌, refl,
}
use ginit.Machine.{space, pure, spent, ◌>>◌}
use ginit.Config.{Config}
use ginit.Linux.Consts.{
  sig_block, sfd_cloexec, sfd_nonblock, pollin, pollerr, pollnval, wnohang, eagain,
}
use ginit.Linux.Calls.{rt_sigprocmask, signalfd4, poll}
use ginit.Linux.Console.{stdout, stderr, with_value, writeln, with_fd}
use ginit.Linux.Spawn.{Result, ok, err}
use ginit.Seat.{SeatServer}
use ginit.Main.{run_ui, run_seat, sigchld_mask, run_event_loop}
use ginit.Main.Loop.{
  Next, goes_on, leaves, drain, reap, on_signal, on_seat, is_set, signed16, mask_at, status_after,
  dispatch, round, event_loop,
}
use ginit.Held.{opened, Keeps, Preserves}
use ginit.Held.Rules.{bind-Keeps, syscall-Keeps, pure-Keeps, stop-Keeps, if-Keeps, then-Preserves}
use ginit.Held.Console.{writeln-Preserves, warn_if_neg-Preserves, unwrap-Keeps}
use ginit.Held.Files.{read-Preserves, opened-Keeps, scope-Keeps, with_fd-top}
use ginit.Held.Requests.{new-Keeps, with_server, process_incoming-Preserves}
use ginit.Held.Boot.{start_ui_process-Preserves, late_init-Preserves}
use ginit.Held.Spawn.{wait4-Preserves}

drain-Preserves : (fuel fd : ℕ) → Preserves (drain fuel fd)
unfolding drain
drain-Preserves zero fd h = stop-Keeps spent (λ w. tt)
drain-Preserves (suc fuel) fd h = bind-Keeps (read-Preserves fd (zeros 128) h) (λ (ret, buf).
    if-Keeps (eq_ℤ ret (neg eagain)) (pure-Keeps tt (λ _. h) refl) (
      if-Keeps (is_neg ret)
        (writeln-Preserves stderr (with_value "failed to read from signalfd: " ret) h)
        (drain-Preserves fuel fd h)))

reap-Preserves : (fuel : ℕ) (ui_child_pid status : ℤ) → Preserves (reap fuel ui_child_pid status)
unfolding reap
reap-Preserves zero ui_child_pid status h = stop-Keeps spent (λ w. tt)
reap-Preserves (suc fuel) ui_child_pid status h =
    bind-Keeps (wait4-Preserves (neg 1) (space 4) wnohang h) (λ (pid, ints).
      if-Keeps (is_neg pid)
        (then-Preserves (writeln-Preserves stderr (with_value "failed to wait for process: " pid))
          (pure-Keeps false (λ _. h) refl))
        (if-Keeps (eq_ℤ pid (pos 0)) (pure-Keeps false (λ _. h) refl) (
          if-Keeps (eq_ℤ pid ui_child_pid)
            (then-Preserves
              (writeln-Preserves stdout (with_value "UI process died: " (status_after ints status)))
              (pure-Keeps true (λ _. h) refl))
            (reap-Preserves fuel ui_child_pid (status_after ints status) h))))

-- A message, and the end of the loop.
leaves-Preserves :
    (message : List _) → Preserves {A = Next} (do writeln stderr message; pure leaves)
leaves-Preserves message h =
    then-Preserves (writeln-Preserves stderr message) (pure-Keeps leaves (λ _. h) refl)

on_signal-Preserves : (fuel fd : ℕ) (pid : ℤ) (b : Bool) → Preserves (on_signal fuel fd pid b)
unfolding on_signal
on_signal-Preserves fuel fd pid false h = pure-Keeps goes_on (λ _. h) refl
on_signal-Preserves fuel fd pid true h = then-Preserves (drain-Preserves fuel fd) (
    bind-Keeps (reap-Preserves fuel pid (pos 0) h)
      (λ died. pure-Keeps (if died then leaves else goes_on) (λ _. h) refl))

on_seat-Preserves : (fuel : ℕ) (server : SeatServer) (b : Bool) → Preserves (on_seat fuel server b)
unfolding on_seat
on_seat-Preserves fuel server false h = pure-Keeps goes_on (λ _. h) refl
on_seat-Preserves fuel server true h = bind-Keeps (process_incoming-Preserves fuel server h) next
  where
    next :
        (r : Result (Unit {0}))
        → Keeps h
            (elim r [
              | ok _ ↦ pure goes_on
              | err e ↦ do
                writeln stderr (with_value "failed to process seat server request: " e)
                pure leaves
            ])
            (λ _. h)
    next (ok _) = pure-Keeps goes_on (λ _. h) refl
    next (err e) = leaves-Preserves _ h

dispatch-Preserves :
    (fuel fd : ℕ) (server : SeatServer) (pid : ℤ) (r0 r1 : ℕ)
    → Preserves (dispatch fuel fd server pid r0 r1)
unfolding dispatch
dispatch-Preserves fuel fd server pid r0 r1 h =
    if-Keeps (is_set r0 (pollerr ||| pollnval))
      (leaves-Preserves (with_value "poll returned error on SIGCHLD signalfd: " (signed16 r0)) h)
      (if-Keeps (is_set r1 (pollerr ||| pollnval))
        (leaves-Preserves (with_value "poll returned error on seat server socket: " (signed16 r1))
          h)
        (bind-Keeps (on_signal-Preserves fuel fd pid (is_set r0 pollin) h) next))
  where
    next :
        (n : Next)
        → Keeps h
            (elim n [ leaves ↦ pure leaves | goes_on ↦ on_seat fuel server (is_set r1 pollin) ])
            (λ _. h)
    next leaves = pure-Keeps leaves (λ _. h) refl
    next goes_on = on_seat-Preserves fuel server (is_set r1 pollin) h

poll-Preserves : (fds : List (ℤ × ℕ)) (timeout : ℤ) → Preserves (poll fds timeout)
unfolding poll
poll-Preserves fds timeout h =
    bind-Keeps (syscall-Keeps 7 _ h) (λ r. pure-Keeps (as_i32 r.ret, r.masks) (λ _. h) refl)

round-Preserves :
    (fuel fd : ℕ) (server : SeatServer) (pid : ℤ) → Preserves (round fuel fd server pid)
unfolding round
round-Preserves fuel fd server pid h =
    bind-Keeps (unwrap-Keeps {K = λ _. h} (try_i32 (pos fd)) (λ a e. refl)) (λ fd0.
      bind-Keeps (unwrap-Keeps {K = λ _. h} (try_i32 (pos server.fd)) (λ a e. refl)) (λ fd1.
        bind-Keeps (poll-Preserves ((fd0, pollin) ∷ (fd1, pollin) ∷ []) (pos 500) h)
          (λ (ret, revents).
            if-Keeps (is_neg ret) (leaves-Preserves (with_value "failed to poll: " ret) h)
              (dispatch-Preserves fuel fd server pid (mask_at 0 revents) (mask_at 1 revents) h))))

event_loop-Preserves :
    (rounds fuel fd : ℕ) (server : SeatServer) (pid : ℤ)
    → Preserves (event_loop rounds fuel fd server pid)
unfolding event_loop
event_loop-Preserves zero fuel fd server pid h = stop-Keeps spent (λ w. tt)
event_loop-Preserves (suc rounds) fuel fd server pid h =
    bind-Keeps (round-Preserves fuel fd server pid h)
      (next (event_loop-Preserves rounds fuel fd server pid))
  where
    next :
        Preserves (event_loop rounds fuel fd server pid)
        → (n : Next)
        → Keeps h
            (elim n [ leaves ↦ pure tt | goes_on ↦ event_loop rounds fuel fd server pid ])
            (λ _. h)
    next k leaves = pure-Keeps tt (λ _. h) refl
    next k goes_on = k h

run_ui-Preserves :
    (fuel : ℕ) (cfg : Config) (fd : ℕ) (server : SeatServer) (compositor_fd : ℕ)
    → Preserves (run_ui fuel cfg fd server compositor_fd)
unfolding run_ui
run_ui-Preserves fuel cfg fd server compositor_fd h =
    bind-Keeps (start_ui_process-Preserves cfg compositor_fd h) (λ pid.
      if-Keeps (is_neg pid)
        (writeln-Preserves stderr (with_value "failed to start UI process: " pid) h)
        (then-Preserves (late_init-Preserves fuel cfg)
          (event_loop-Preserves fuel fuel fd server pid h)))

run_seat-Preserves : (fuel : ℕ) (cfg : Config) (fd : ℕ) → Preserves (run_seat fuel cfg fd)
unfolding run_seat
run_seat-Preserves fuel cfg fd h = bind-Keeps (new-Keeps h) next
  where
    next :
        (r : Result (SeatServer × ℕ))
        → Keeps
            (with_server r h)
            (elim r [
              | err e ↦ writeln stderr (with_value "failed to create seat server: " e)
              | ok (server, compositor_fd) ↦
                  with_fd server.fd
                    (with_fd compositor_fd (run_ui fuel cfg fd server compositor_fd))
            ])
            (λ _. h)
    next (err e) = writeln-Preserves stderr _ h
    next (ok (server, compositor_fd)) = with_fd-top server.fd h (
        scope-Keeps compositor_fd (server.fd ∷ h)
          (run_ui-Preserves fuel cfg fd server compositor_fd))

rt_sigprocmask-Preserves : (how new size : ℕ) → Preserves (rt_sigprocmask how new size)
unfolding rt_sigprocmask
rt_sigprocmask-Preserves how new size h =
    bind-Keeps (syscall-Keeps 14 _ h) (λ r. pure-Keeps (as_i32 r.ret) (λ _. h) refl)

signalfd4-Keeps :
    (fd : ℤ) (mask flags : ℕ) (h : List ℕ) → Keeps h (signalfd4 fd mask flags) (λ ret. opened ret h)
unfolding signalfd4
signalfd4-Keeps fd mask flags h =
    bind-Keeps (syscall-Keeps 289 _ h) (λ r. pure-Keeps (as_i32 r.ret) (λ ret. opened ret h) refl)

-- Whatever the kernel answers, the event loop closes each descriptor that it has opened: of the
-- signals, of the seat server and of the compositor, and those of the devices.
pub run_event_loop-Preserves : (fuel : ℕ) (cfg : Config) → Preserves (run_event_loop fuel cfg)
unfolding run_event_loop
run_event_loop-Preserves fuel cfg h =
    bind-Keeps (rt_sigprocmask-Preserves sig_block sigchld_mask 8 h) (λ ret.
      then-Preserves (warn_if_neg-Preserves "failed to block SIGCHLD: " ret) (
        bind-Keeps (signalfd4-Keeps (neg 1) sigchld_mask (sfd_cloexec ||| sfd_nonblock) h) (λ fd.
          opened-Keeps fd h
            (writeln-Preserves stderr (with_value "failed to create SIGCHLD signalfd: " fd))
            (run_seat-Preserves fuel cfg))))
