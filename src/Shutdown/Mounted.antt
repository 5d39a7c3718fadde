-- ===== src/Shutdown/Mounted.antt =====
-- `unmount_all` of src/shutdown.rs over the mounts file.
use ginit.Base.{
  ℕ, ◌<◌, ◌≤◌, ◌^◌, ◌≡◌, ℤ, pos, as_u64, try_u32, Bytes, List, [], ◌∷◌, lt→ltb, length, drop,
  flatten, text, zeros, length-zeros, length-append, reverse, arith,
}
use ginit.Machine.{Machine, World, done}
use ginit.Linux.Consts.{o_rdonly}
use ginit.Linux.Calls.{open_file}
use ginit.Linux.Console.{drop_fd, with_fd, unwrap}
use ginit.Mounts.{before_directory, read_mounts, read_mounts_from_fd}
use ginit.Mounts.File.{Delivers}
use ginit.Mounts.Lines.{
  MountLine, lines_then, AreLines, terminated, dirs, CutsClean, read_mounts_from_fd-lines,
}
use ginit.Shutdown.{unmount_all}
use ginit.Shutdown.Unmount.{unmount_each, ArePaths, unmount_loop-reverse}

length_le-terminated : (ds : List Bytes) → length ds ≤ length (terminated ds)
length_le-terminated [] = omega arith
length_le-terminated (d ∷ ds) =
    omega (arith, length-append d (0 ∷ terminated ds), length_le-terminated ds)

-- `read_mounts` where the file opens and closes.
read_mounts_lem :
    (m : Machine) (fd fuel : ℕ) (out : Bytes) (n : ℤ) (o : Bytes) (w w1 w2 w3 : World)
    → open_file (text "/proc/mounts") o_rdonly 0 m w ≡ (done (pos fd), w1)
    → fd < 2 ^ 32
    → read_mounts_from_fd fuel fd out m w1 ≡ (done (n, o), w2)
    → drop_fd fd m w2 ≡ (done tt, w3)
    → read_mounts fuel out m w ≡ (done (n, o), w3)
unfolding read_mounts with_fd try_u32
read_mounts_lem m fd fuel out n o w w1 w2 w3 opened b r c =
    rw (opened, lt→ltb fd (2 ^ 32) b, unwrap) (rw r (rw c))

-- Where the mounts file opens and closes, its reads deliver whole lines in chunks that end outside
-- of the directories, the directories are paths that fit into 255 bytes with their NULs, and the
-- fuel is more than the chunks, unmount_all unmounts every directory of the file once, the one
-- that was mounted last first.
pub unmount_all-lines :
    (m : Machine) (fd fuel : ℕ) (w w1 w2 w3 : World) (cs : List Bytes) (ls : List MountLine)
    → open_file (text "/proc/mounts") o_rdonly 0 m w ≡ (done (pos fd), w1)
    → fd < 2 ^ 32
    → Delivers m fd w1 cs w2
    → drop_fd fd m w2 ≡ (done tt, w3)
    → CutsClean before_directory cs
    → flatten cs ≡ lines_then ls []
    → AreLines ls
    → ArePaths (dirs ls)
    → length cs < fuel
    → length (terminated (dirs ls)) < 256
    → unmount_all fuel m w ≡ unmount_each (reverse (dirs ls)) m w3
unfolding unmount_all as_u64
unmount_all-lines m fd fuel w w1 w2 w3 cs ls opened b d closed clean e h p l fit =
    let z = length-zeros 256 in
    let r =
      read_mounts_from_fd-lines m fd fuel (zeros 256) ls d clean e h l (omega arith)
        (omega arith) in
    rw (
      read_mounts_lem m fd fuel (zeros 256) _ _ w w1 w2 w3 opened b r closed,
      unmount_loop-reverse (dirs ls) (drop (length (terminated (dirs ls))) (zeros 256)) 256 p
          (omega (arith, length_le-terminated (dirs ls))),
    )
