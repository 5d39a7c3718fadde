-- ===== src/Tests/Shutdown.antt =====
-- src/shutdown.rs at concrete kernels.
use ginit.Base.{
  ◌≡◌, refl, inl, inr, pos, neg, Bytes, List, [], ◌∷◌, ◌++◌, text, length, zeros, reverse, as_i32,
  arith,
}
use ginit.Machine.{Machine, World, done, null}
use ginit.Linux.Consts.{echild, eintr, o_rdonly}
use ginit.Linux.Calls.{read, wait4, open_file}
use ginit.Linux.Console.{drop_fd}
use ginit.Mounts.Feed.{end_state}
use ginit.Mounts.File.{Delivers, eof, chunk}
use ginit.Mounts.Lines.{MountLine, terminated}
use ginit.Shutdown.{wait_loop, unmount_all, unmount_loop}
use ginit.Shutdown.Reap.{Waits, ends, waits, wait_loop-echild}
use ginit.Shutdown.Unmount.{unmount_each, ArePaths, unmount_loop-reverse}
use ginit.Shutdown.Mounted.{unmount_all-lines}
use ginit.Tests.Script.{scripted, reads, returns, fresh}

abbrev wait_kernel : Machine
wait_kernel = scripted (returns (pos 40) ∷ returns (neg eintr) ∷ returns (neg echild) ∷ [])

after_wait : World → World
unfolding wait4 as_i32
after_wait w = (wait4 (neg 1) null 0 wait_kernel w).1

wait_world : World
unfolding after_wait
wait_world = after_wait (after_wait (after_wait fresh))

waited : Waits wait_kernel (neg echild) fresh 2 wait_world
unfolding wait_world
waited = waits (inl refl) refl (waits (inr refl) refl (ends refl refl))

wait_loop-echild_example : wait_loop 3 wait_kernel fresh ≡ (done tt, wait_world)
wait_loop-echild_example = wait_loop-echild wait_kernel 3 2 fresh wait_world waited (omega arith)

abbrev paths : List Bytes
paths = text "/" ∷ text "/dev" ∷ []

are_paths : ArePaths paths
unfolding text
are_paths = (((λ e. cc), ground arith), (((λ e. cc), ground arith), tt))

unmount_loop-reverse_example :
    unmount_loop 3 (terminated paths ++ zeros 4) (length (terminated paths))
    ≡ unmount_each (reverse paths)
unmount_loop-reverse_example = unmount_loop-reverse paths (zeros 4) 3 are_paths (omega arith)

-- The mounts file in one read.
abbrev file : Bytes
file = text "/dev/a / btrfs rw 0 0\nnone /dev devtmpfs rw 0 0\n"

abbrev lines : List MountLine
lines =
    record { device = text "/dev/a"; dir = text "/"; others = text "btrfs rw 0 0" }
    ∷ record { device = text "none"; dir = text "/dev"; others = text "devtmpfs rw 0 0" }
    ∷ []

abbrev shutdown_kernel : Machine
shutdown_kernel = scripted (returns (pos 5) ∷ reads file ∷ returns (pos 0) ∷ returns (pos 0) ∷ [])

w1 : World
unfolding open_file
w1 = (open_file (text "/proc/mounts") o_rdonly 0 shutdown_kernel fresh).1

w2 : World
unfolding read w1
w2 = (read 5 (zeros 256) shutdown_kernel (read 5 (zeros 256) shutdown_kernel w1).1).1

w3 : World
unfolding drop_fd w2
w3 = (drop_fd 5 shutdown_kernel w2).1

delivered : Delivers shutdown_kernel 5 w1 (file ∷ []) w2
unfolding w2 zeros text
delivered = chunk {c = file} (omega arith) (omega arith) refl (eof refl)

unmount_all-lines_example :
    unmount_all 3 shutdown_kernel fresh ≡ unmount_each (reverse paths) shutdown_kernel w3
unfolding text end_state w3 as_i32
unmount_all-lines_example =
    unmount_all-lines shutdown_kernel 5 3 fresh w1 w2 w3 (file ∷ []) lines refl (omega arith)
      delivered refl ((λ e. cc), tt) refl (ground arith) are_paths (omega arith) (omega arith)
