-- ===== src/Shutdown/Phases/Order.antt =====
-- The order of graceful_shutdown of src/main.rs with the functions of src/shutdown.rs.
use ginit.Base.{ℕ, ltb_ℤ, ℤ, neg, if◌then◌else◌}
use ginit.Machine.{Machine, M, pure, ◌>>◌}
use ginit.Linux.Calls.{sync}
use ginit.Linux.Console.{stderr, writeln, with_value}
use ginit.Shutdown.{end_all_processes, unmount_all, power_off}
use ginit.Main.{write_kernel_log}
use ginit.Shutdown.Phases.{Unmarked}
use ginit.Shutdown.Phases.Others.{pure-Unmarked, if-Unmarked, writeln-Unmarked}

pub after_umount-Unmarked :
    (ret : ℤ)
    → Unmarked (
        if ltb_ℤ ret (neg 1)
        then writeln stderr (with_value "failed unmount FS: " ret)
        else pure tt)
after_umount-Unmarked ret =
    if-Unmarked (ltb_ℤ ret (neg 1)) (writeln-Unmarked stderr _) (pure-Unmarked tt)

-- The parts behind each other.
abbrev unmounted_off : ℕ → M (Unit {0})
unmounted_off fuel = unmount_all fuel >> power_off

abbrev ended_off : ℕ → M (Unit {0})
ended_off fuel = end_all_processes fuel >> unmounted_off fuel

abbrev synced_off : ℕ → M (Unit {0})
synced_off fuel = sync >> ended_off fuel

abbrev logged_off : ℕ → M (Unit {0})
logged_off fuel = write_kernel_log >> synced_off fuel
