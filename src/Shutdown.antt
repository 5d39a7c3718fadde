-- ===== src/Shutdown.antt =====
-- src/shutdown.rs: ending the processes, unmounting and powering off.
pub mod Reap
pub mod Unmount
pub mod Mounted
pub mod Phases
use ginit.Base.{
  ℕ, zero, suc, ◌-◌, leb, ◌==◌, ℤ, neg, is_neg, eq_ℤ, ltb_ℤ, as_i32, as_u64, pos, not, Bytes,
  Option, none, some, get_elem?, slice, c_str, zeros, if◌then◌else◌,
}
use ginit.Machine.{out_of_bounds, null, M, pure, stop, spent, ◌>>=◌, ◌>>◌}
use ginit.Linux.Consts.{sigterm, esrch, echild, eintr, linux_reboot_magic2, rb_power_off}
use ginit.Linux.Calls.{kill, wait4, umount, reboot}
use ginit.Linux.Console.{stderr, with_value, writeln, panic}
use ginit.Mounts.{read_mounts}

-- The loop that collects the exit status of every process.
unfoldable pub wait_loop : ℕ → M (Unit {0})
wait_loop zero = stop spent
wait_loop (suc fuel) = do
  (ret, ints) ← wait4 (neg 1) null 0
  if eq_ℤ ret (neg echild)
      then pure tt
      else if eq_ℤ ret (neg eintr)
      then wait_loop fuel
      else if is_neg ret
      then writeln stderr (with_value "failed to kill processes: " ret)
      else wait_loop fuel

unfoldable pub end_all_processes : ℕ → M (Unit {0})
end_all_processes fuel = do
  ret ← kill (neg 1) sigterm
  if is_neg ret
      then (if not (eq_ℤ ret (neg esrch))
          then writeln stderr (with_value "failed to broadcast SIGTERM: " ret)
          else pure tt)
      else wait_loop fuel

-- From `start` down to the byte behind the NUL in front, or to 0; `none` is an index out of bounds.
unfoldable pub find_start : Bytes → ℕ → Option ℕ
find_start mounts zero = elim (get_elem? mounts 0) [
  | none ↦ none
  | some b ↦ some (if b == 0 then 1 else 0)
]
find_start mounts (suc s) = elim (get_elem? mounts (suc s)) [
  | none ↦ none
  | some b ↦ if b == 0 then some (suc (suc s)) else find_start mounts s
]

-- `umount` of one directory, and the message about its error.
unfoldable pub unmount_one : Bytes → M (Unit {0})
unmount_one name = do
  ret ← umount name 0
  if ltb_ℤ ret (neg 1) then writeln stderr (with_value "failed unmount FS: " ret) else pure tt

-- A bound that is out of range panics.
unfoldable pub or_panic : {A : Type 0} → Option A → M A
or_panic none = panic out_of_bounds
or_panic (some a) = pure a

-- `while end >= 2`
unfoldable pub unmount_loop : ℕ → Bytes → ℕ → M (Unit {0})
unfolding or_panic
unmount_loop zero mounts end = stop spent
unmount_loop (suc fuel) mounts end =
    if leb 2 end
    then (do
      start ← or_panic (find_start mounts (end - 2))
      m ← or_panic (slice start end mounts)
      unmount_one (c_str m)
      unmount_loop fuel mounts start)
    else pure tt

-- The fuel bounds the reads of the mounts file; the loop has enough with the size of the array.
unfoldable pub unmount_all : ℕ → M (Unit {0})
unmount_all fuel = do
  (n, mounts) ← read_mounts fuel (zeros 256)
  if is_neg n
      then writeln stderr (with_value "failed to read mounts: " n)
      else unmount_loop 256 mounts (as_u64 n)

-- `0xfee1deadu32 as i32`
abbrev pub linux_reboot_magic1 : ℤ
linux_reboot_magic1 = as_i32 (pos 0xfee1dead)

unfoldable pub power_off : M (Unit {0})
power_off = do ret ← reboot linux_reboot_magic1 (pos linux_reboot_magic2) rb_power_off; pure tt
