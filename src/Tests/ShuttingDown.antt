-- ===== src/Tests/ShuttingDown.antt =====
-- A shutdown of a machine with one mount and without processes.
use ginit.Base.{
  ◌≡◌, refl, pos, neg, Bytes, List, [], ◌∷◌, ◌==◌, text, zeros, if◌then◌else◌, as_i32, arith,
}
use ginit.Machine.{Machine, World, Event, Reply, done}
use ginit.Linux.Consts.{echild}
use ginit.Linux.Calls.{read, wait4, open_file, close}
use ginit.Linux.Console.{drop_fd}
use ginit.Mounts.Feed.{end_state}
use ginit.Mounts.File.{eof, chunk}
use ginit.Mounts.Lines.{MountLine}
use ginit.Shutdown.Reap.{ends}
use ginit.Shutdown.Phases.{step_calls}
use ginit.Shutdown.Phases.Calls.{kill_call, umount_call, reboot_call}
use ginit.Main.{graceful_shutdown}
use ginit.Ends.{Speaks}
use ginit.Ends.ShuttingDown.{Collected, MountsFile, graceful_shutdown-reboots}
use ginit.Tests.Script.{returns, reads, fresh}

abbrev file : Bytes
file = text "proc /proc proc rw 0 0\n"

abbrev lines : List MountLine
lines = record { device = text "proc"; dir = text "/proc"; others = text "proc rw 0 0" } ∷ []

-- The first read behind an `open` gives the file, and the next one its end.
abbrev read_reply : List Event → Reply
read_reply [] = returns (pos 0)
read_reply (e ∷ before) = if e.call.num == 2 then reads file else returns (pos 0)

-- `wait4` finds no process; the other calls succeed.
abbrev idle : Machine
idle = record {
  kernel = λ w call.
      if call.num == 0
      then read_reply w.history
      else if call.num == 61
      then returns (neg echild)
      else returns (pos 5);
  panic_text = λ p. [];
  padding = λ n. [];
}

speaks : Speaks idle
speaks w fd s standard = refl

collected : (w : World) → Collected idle 2 w
unfolding wait4 as_i32
collected w = record { waits = 0; after = _; collects = ends refl refl; enough = omega arith }

mounts_file : (w : World) → MountsFile idle 2 lines w
unfolding open_file read drop_fd close zeros text end_state as_i32
mounts_file w = record {
  fd = 5;
  after_open = _;
  after_reads = _;
  after_close = _;
  chunks = file ∷ [];
  opens = refl;
  fd_fits = omega arith;
  delivers = chunk {c = file} (omega arith) (omega arith) refl (eof refl);
  closes = refl;
  clean = ((λ e. cc), tt);
  whole = refl;
  are_lines = ground arith;
  are_paths = (((λ e. cc), ground arith), tt);
  enough = omega arith;
  fit = omega arith;
}

graceful_shutdown-reboots_example :
    (v : World) × (graceful_shutdown 2 idle fresh ≡ (done tt, v))
    × (step_calls v.history
        ≡ reboot_call ∷ (umount_call (text "/proc") ∷ kill_call ∷ step_calls fresh.history))
graceful_shutdown-reboots_example =
    graceful_shutdown-reboots idle 2 lines fresh speaks collected mounts_file
