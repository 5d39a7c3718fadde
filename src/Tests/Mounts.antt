-- ===== src/Tests/Mounts.antt =====
-- src/mounts.rs at concrete files.
use ginit.Base.{
  ◌<◌, ◌≤◌, ◌≡◌, refl, pos, neg, Bytes, [], ◌∷◌, ◌++◌, text, length, drop, zeros, slice, position,
  copy_from_slice, try_i32, arith, ◌==◌,
}
use ginit.Machine.{Machine, World, done}
use ginit.Linux.Calls.{read}
use ginit.Linux.Consts.{enomem}
use ginit.Mounts.{before_directory, read_mounts_from_fd, parse_chunk}
use ginit.Mounts.Feed.{end_state, chunk_output}
use ginit.Mounts.Array.{holding, Settles}
use ginit.Mounts.Chunk.{parse_chunk-Settles}
use ginit.Mounts.File.{Delivers, eof, chunk, file_output, read_mounts_from_fd_lem}
use ginit.Mounts.Lines.{MountLine, AreLines, CutsClean, terminated, read_mounts_from_fd-lines}
use ginit.Mounts.Cut.{read_mounts_from_fd-cut_file, cut_file}
use ginit.Tests.Script.{scripted, reads, returns, fresh}

abbrev root_line : MountLine
unfolding text
root_line = record { device = text "/dev/a"; dir = text "/"; others = text "btrfs rw 0 0" }

abbrev dev_line : MountLine
unfolding text
dev_line = record { device = text "none"; dir = text "/dev"; others = text "devtmpfs rw 0 0" }

-- Two reads, cut in the options of the first line.
abbrev first_read : Bytes
first_read = text "/dev/a / btrfs r"

abbrev second_read : Bytes
second_read = text "w 0 0\nnone /dev devtmpfs rw 0 0\n"

abbrev kernel : Machine
unfolding text
kernel = scripted (reads first_read ∷ reads second_read ∷ returns (pos 0) ∷ [])

after_read : Machine → World → World
unfolding read text zeros
after_read m w = (read 7 (zeros 256) m w).1

last_world : World
unfolding after_read kernel
last_world = after_read kernel (after_read kernel (after_read kernel fresh))

delivered : Delivers kernel 7 fresh (first_read ∷ second_read ∷ []) last_world
unfolding last_world
delivered =
    chunk (unfold text in omega arith) (unfold text in omega arith) refl
      (chunk (unfold text in omega arith) (unfold text in omega arith) refl (eof refl))

are_lines : AreLines (root_line ∷ dev_line ∷ [])
unfolding text
are_lines = ground arith

cuts_clean : CutsClean before_directory (first_read ∷ second_read ∷ [])
unfolding end_state text
cuts_clean = ((λ e. cc), ((λ e. cc), tt))

run :
    read_mounts_from_fd 5 7 (zeros 12) kernel fresh
    ≡ (done (pos 7, text "/" ++ 0 ∷ text "/dev" ++ 0 ∷ zeros 5), last_world)
unfolding read_mounts_from_fd position slice copy_from_slice parse_chunk try_i32 last_world
run = refl

-- An array of 7 bytes is one byte too small.
run_full :
    (read_mounts_from_fd 5 7 (zeros 7) kernel fresh).0 ≡ done (neg enomem, text "/" ++ 0 ∷ zeros 5)
unfolding read_mounts_from_fd position slice copy_from_slice parse_chunk try_i32 last_world
run_full = refl

read_mounts_from_fd-lines_example :
    read_mounts_from_fd 5 7 (zeros 12) kernel fresh
    ≡ (done (pos 7, terminated (text "/" ∷ text "/dev" ∷ []) ++ drop 7 (zeros 12)), last_world)
unfolding text zeros
read_mounts_from_fd-lines_example =
    read_mounts_from_fd-lines kernel 7 5 (zeros 12) (root_line ∷ dev_line ∷ []) delivered cuts_clean
      refl are_lines (omega arith) (omega arith) (omega arith)

read_mounts_from_fd_lem_example :
    let added = file_output before_directory (first_read ∷ second_read ∷ []) in
    (length added < length (zeros 12)
      → read_mounts_from_fd 5 7 (zeros 12) kernel fresh
        ≡ (done (pos (length added), added ++ drop (length added) (zeros 12)), last_world))
    × (length (zeros 12) ≤ length added
        → (o : Bytes) × (w : World) × (read_mounts_from_fd 5 7 (zeros 12) kernel fresh
            ≡ (done (neg enomem, o), w)))
unfolding zeros
read_mounts_from_fd_lem_example =
    read_mounts_from_fd_lem kernel 7 5 (zeros 12) delivered (omega arith) (omega arith)
      (omega arith)

parse_chunk-Settles_example :
    Settles
      (end_state before_directory first_read)
      []
      (chunk_output (length first_read == length first_read) before_directory first_read)
      (zeros 12)
      (parse_chunk 20 (holding before_directory [] (zeros 12)) first_read (length first_read) 0)
unfolding slice text zeros
parse_chunk-Settles_example =
    parse_chunk-Settles first_read (length first_read) 20 before_directory [] (zeros 12) first_read
      0 (omega arith) refl (omega arith)

-- The first read ends in the middle of `/dev`.
abbrev cut_front : Bytes
cut_front = text "/d"

abbrev cut_back : Bytes
cut_back = text "ev"

abbrev cut_kernel : Machine
cut_kernel =
    scripted (reads (text "none /d") ∷ reads (text "ev devtmpfs rw 0 0\n") ∷ returns (pos 0) ∷ [])

cut_world : World
unfolding after_read
cut_world = after_read cut_kernel (after_read cut_kernel (after_read cut_kernel fresh))

cut_delivered :
    Delivers cut_kernel 7 fresh
      (cut_file [] (text "none") cut_front cut_back (text "devtmpfs rw 0 0") [])
      cut_world
unfolding cut_world
cut_delivered =
    chunk (unfold text in omega arith) (unfold text in omega arith) refl
      (chunk (unfold text in omega arith) (unfold text in omega arith) refl (eof refl))

read_mounts_from_fd-cut_file_example :
    let added = terminated (cut_front ∷ cut_back ∷ []) in
    read_mounts_from_fd 3 7 (zeros 12) cut_kernel fresh
    ≡ (done (pos (length added), added ++ drop (length added) (zeros 12)), cut_world)
unfolding text zeros
read_mounts_from_fd-cut_file_example =
    read_mounts_from_fd-cut_file [] (text "none") cut_front cut_back (text "devtmpfs rw 0 0") []
      cut_kernel 7 3 (zeros 12) cut_delivered tt (ground arith) tt (λ e. cc) (omega arith)
      (omega arith) (omega arith)
