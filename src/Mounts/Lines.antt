-- ===== src/Mounts/Lines.antt =====
-- The mounts file as lines, and what src/mounts.rs makes of it: one entry for each directory where
-- no read ends inside a directory, and two for a directory that a read cuts.
use ginit.Base.{
  ℕ, ◌^◌, ◌<◌, ◌≡◌, refl, sym, ◌∙◌, ◌≢◌, Bool, pos, Bytes, List, [], ◌∷◌, ◌++◌, length, drop,
  flatten, Free, append_assoc, append-nil, arith,
}
use ginit.Machine.{Machine, World, done}
use ginit.Mounts.{
  MountParserState, before_directory, directory, after_directory, read_mounts_from_fd,
}
use ginit.Mounts.Feed.{
  output, end_state, chunk_output, flush_in, before_directory-skip, after_directory-skip,
  directory-copy, next_state, byte_output,
}
use ginit.Mounts.File.{Delivers, file_output, read_mounts_from_fd_lem}

-- A line: the device, a space, the directory, a space and whatever else the line holds.
pub record MountLine : Type 0 where
  pub device : Bytes
  pub dir : Bytes
  pub others : Bytes

abbrev pub tail_bytes : Bytes → Bytes → Bytes → Bytes
tail_bytes dir others more = dir ++ b' ' ∷ (others ++ b'\n' ∷ more)

-- The lines, with `more` behind them. The delimiters are escaped inside the fields.
abbrev pub lines_then : List MountLine → Bytes → Bytes
lines_then [] more = more
lines_then (l ∷ ls) more = l.device ++ b' ' ∷ tail_bytes l.dir l.others (lines_then ls more)

abbrev pub IsLine : MountLine → Type 0
IsLine l = Free b' ' l.device × Free b' ' l.dir × Free b'\n' l.others

abbrev pub AreLines : List MountLine → Type 0
AreLines [] = Unit
AreLines (l ∷ ls) = IsLine l × AreLines ls

-- The entries, each with a NUL behind it.
abbrev pub terminated : List Bytes → Bytes
terminated [] = []
terminated (d ∷ ds) = d ++ 0 ∷ terminated ds

abbrev pub dirs : List MountLine → List Bytes
dirs [] = []
dirs (l ∷ ls) = l.dir ∷ dirs ls

output-append :
    (s : MountParserState) (a b : Bytes)
    → output s (a ++ b) ≡ output s a ++ output (end_state s a) b
unfolding output end_state
output-append s [] b = refl
output-append s (c ∷ a) b =
    rw (output-append (next_state s c) a b) (sym (append_assoc (byte_output s c) _ _))

end_state-append :
    (s : MountParserState) (a b : Bytes) → end_state s (a ++ b) ≡ end_state (end_state s a) b
unfolding end_state
end_state-append s [] b = refl
end_state-append s (c ∷ a) b = end_state-append (next_state s c) a b

-- From inside the directory of a line on.
pub tail_bytes_lem :
    (dir others more : Bytes)
    → Free b' ' dir
    → Free b'\n' others
    → (output directory (tail_bytes dir others more) ≡ dir ++ 0 ∷ output before_directory more)
      × (end_state directory (tail_bytes dir others more) ≡ end_state before_directory more)
tail_bytes_lem dir others more fd fo =
    let (o1, e1) = directory-copy (others ++ b'\n' ∷ more) dir fd in
    let (o2, e2) = after_directory-skip more others fo in (o1 ∙ rw o2, e1 ∙ e2)

pub lines_then_lem :
    (ls : List MountLine) (more : Bytes)
    → AreLines ls
    → (output before_directory (lines_then ls more)
        ≡ terminated (dirs ls) ++ output before_directory more)
      × (end_state before_directory (lines_then ls more) ≡ end_state before_directory more)
lines_then_lem [] more h = (refl, refl)
lines_then_lem (l ∷ ls) more ((fv, fd, fo), h) =
    let (o1, e1) =
      before_directory-skip (tail_bytes l.dir l.others (lines_then ls more)) l.device fv in
    let (o2, e2) = tail_bytes_lem l.dir l.others (lines_then ls more) fd fo in
    let (o3, e3) = lines_then_lem ls more h in
    (o1 ∙ o2 ∙ rw o3 (sym (append_assoc l.dir (0 ∷ terminated (dirs ls)) _)), e1 ∙ e2 ∙ e3)

-- No chunk ends inside a directory.
abbrev pub CutsClean : MountParserState → List Bytes → Type 0
CutsClean s [] = Unit
CutsClean s (c ∷ cs) = (end_state s c ≢ directory) × CutsClean (end_state s c) cs

flush_clean : (b : Bool) (s : MountParserState) → s ≢ directory → flush_in b s ≡ []
flush_clean b before_directory h = refl
flush_clean b directory h = absurd (h refl)
flush_clean b after_directory h = refl

file_output-CutsClean :
    (s : MountParserState) (cs : List Bytes)
    → CutsClean s cs
    → file_output s cs ≡ output s (flatten cs)
unfolding file_output chunk_output
file_output-CutsClean s [] h = refl
file_output-CutsClean s (c ∷ cs) (ne, h) =
    rw (flush_clean _ (end_state s c) ne, append-nil, file_output-CutsClean (end_state s c) cs h)
      (sym (output-append s c (flatten cs)))

-- Where the fuel is more than the chunks and the array, of less than 2 ^ 31 bytes, has room with a
-- byte to spare, reads that end outside of the directories give the directories of the lines, in
-- the order of the file and each with a NUL behind it, in whatever chunks they deliver the lines.
pub read_mounts_from_fd-lines :
    (m : Machine) (fd fuel : ℕ) (out : Bytes) {w w' : World} {cs : List Bytes} (ls : List MountLine)
    → Delivers m fd w cs w'
    → CutsClean before_directory cs
    → flatten cs ≡ lines_then ls []
    → AreLines ls
    → length cs < fuel
    → length (terminated (dirs ls)) < length out
    → length out < 2 ^ 31
    → read_mounts_from_fd fuel fd out m w ≡ (
      done (
        pos (length (terminated (dirs ls))),
        terminated (dirs ls) ++ drop (length (terminated (dirs ls))) out,
      ),
      w',
    )
unfolding output
read_mounts_from_fd-lines m fd fuel out {cs} ls d clean e h l fit b =
    let o : file_output before_directory cs ≡ terminated (dirs ls) =
      file_output-CutsClean before_directory cs clean
      ∙ rw e ((lines_then_lem ls [] h).0 ∙ append-nil (terminated (dirs ls))) in
    rw o at ((read_mounts_from_fd_lem m fd fuel out d l (omega arith) b).0 (rw o fit))
