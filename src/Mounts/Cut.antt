-- ===== src/Mounts/Cut.antt =====
-- A read that ends inside a directory: src/mounts.rs then writes a NUL and goes on with the rest of
-- the directory as another entry.
use ginit.Base.{
  ℕ, ◌^◌, ◌<◌, ◌≡◌, refl, ◌∙◌, ◌≢◌, false, pos, Bytes, List, [], ◌∷◌, ◌++◌, length, drop, Free,
  append_assoc, append-nil, arith,
}
use ginit.Machine.{Machine, World, done}
use ginit.Mounts.{before_directory, directory, read_mounts_from_fd}
use ginit.Mounts.Feed.{
  output, end_state, ends_in_space, chunk_output, is_nil, before_directory-skip, directory-end,
}
use ginit.Mounts.Chunk.{and_false}
use ginit.Mounts.File.{Delivers, file_output, read_mounts_from_fd_lem}
use ginit.Mounts.Lines.{
  MountLine, tail_bytes, lines_then, IsLine, AreLines, terminated, dirs, tail_bytes_lem,
  lines_then_lem,
}

Free-append : (x : ℕ) (a b : Bytes) → Free x (a ++ b) → Free x a × Free x b
Free-append x [] b h = (tt, h)
Free-append x (c ∷ a) b (e, h) = let (ha, hb) = Free-append x a b h in ((e, ha), hb)

ends_in_space-more :
    (a b : Bytes)
    → is_nil b ≡ false
    → (ends_in_space (a ++ b) ≡ ends_in_space b) × (is_nil (a ++ b) ≡ false)
unfolding ends_in_space
ends_in_space-more [] b h = (refl, h)
ends_in_space-more (c ∷ a) b h = let (e, n) = ends_in_space-more a b h in (rw n e, refl)

ends_in_space-cons :
    (c : ℕ) (b : Bytes) → is_nil b ≡ false → ends_in_space (c ∷ b) ≡ ends_in_space b
unfolding ends_in_space
ends_in_space-cons c b h = rw h

ends_in_space-lines_then :
    (ls : List MountLine) (more : Bytes)
    → is_nil more ≡ false
    → (ends_in_space (lines_then ls more) ≡ ends_in_space more)
      × (is_nil (lines_then ls more) ≡ false)
ends_in_space-lines_then [] more h = (refl, h)
ends_in_space-lines_then (l ∷ ls) more h =
    let (e1, n1) = ends_in_space-lines_then ls more h in
    let (e2, n2) = ends_in_space-more l.others (b'\n' ∷ lines_then ls more) refl in
    let (e3, n3) =
      ends_in_space-more l.dir (b' ' ∷ (l.others ++ b'\n' ∷ lines_then ls more)) refl in
    let (e4, n4) =
      ends_in_space-more l.device (b' ' ∷ tail_bytes l.dir l.others (lines_then ls more)) refl in
    (
      e4
          ∙ ends_in_space-cons b' ' _ n3
          ∙ e3
          ∙ ends_in_space-cons b' ' _ n2
          ∙ e2
          ∙ ends_in_space-cons b'\n' _ n1
          ∙ e1,
      n4,
    )

not_nil : (a : Bytes) → a ≢ [] → is_nil a ≡ false
not_nil [] h = absurd (h refl)
not_nil (c ∷ a) h = refl

module _ (before : List MountLine) (device front back others : Bytes) (after : List MountLine) where
  -- Two reads, the first of which ends inside the directory `front ++ back`.
  abbrev pub cut_file : List Bytes
  cut_file =
      lines_then before (device ++ b' ' ∷ front) ∷ tail_bytes back others (lines_then after []) ∷ []

  first_chunk :
      AreLines before
      → Free b' ' device
      → Free b' ' front
      → front ≢ []
      → let c = lines_then before (device ++ b' ' ∷ front) in
        (output before_directory c ≡ terminated (dirs before) ++ front)
        × (end_state before_directory c ≡ directory)
        × (ends_in_space c ≡ false)
  first_chunk hb fv ff ne =
      let (o1, e1) = lines_then_lem before (device ++ b' ' ∷ front) hb in
      let (o2, e2) = before_directory-skip front device fv in
      let (o3, e3, s3) = directory-end front ff in
      let (s2, n2) = ends_in_space-more device (b' ' ∷ front) refl in
      let (s1, n1) = ends_in_space-lines_then before (device ++ b' ' ∷ front) n2 in
      (
        o1 ∙ rw (o2 ∙ o3),
        e1 ∙ e2 ∙ e3,
        s1 ∙ s2 ∙ ends_in_space-cons b' ' front (not_nil front ne) ∙ s3,
      )

  second_chunk :
      Free b' ' back
      → Free b'\n' others
      → AreLines after
      → let c = tail_bytes back others (lines_then after []) in
        (output directory c ≡ back ++ 0 ∷ terminated (dirs after))
        × (end_state directory c ≡ before_directory)
  unfolding output end_state
  second_chunk fb fo ha =
      let (o1, e1) = tail_bytes_lem back others (lines_then after []) fb fo in
      let (o2, e2) = lines_then_lem after [] ha in
      (o1 ∙ rw (o2 ∙ append-nil (terminated (dirs after))), e1 ∙ e2)

  file_output-cut_file :
      AreLines before
      → IsLine (record { device = device; dir = front ++ back; others = others })
      → AreLines after
      → front ≢ []
      → file_output before_directory cut_file
        ≡ terminated (dirs before) ++ (front ++ 0 ∷ (back ++ 0 ∷ terminated (dirs after)))
  unfolding file_output chunk_output
  file_output-cut_file hb (fv, fd, fo) ha ne =
      let (ff, fb) = Free-append b' ' front back fd in
      let (o1, e1, s1) = first_chunk hb fv ff ne in
      let (o2, e2) = second_chunk fb fo ha in
      rw (o1, s1, e1, o2, e2, and_false) (simp (append-nil, append_assoc))

  -- With fuel and room in the array, if a read ends inside a directory of a file of lines, behind
  -- at least one byte of it, then in place of the directory the array gets two entries, the part
  -- before the cut and the part behind it.
  pub read_mounts_from_fd-cut_file :
      (m : Machine) (fd fuel : ℕ) (out : Bytes) {w w' : World}
      → Delivers m fd w cut_file w'
      → AreLines before
      → IsLine (record { device = device; dir = front ++ back; others = others })
      → AreLines after
      → front ≢ []
      → 2 < fuel
      → let added =
          terminated (dirs before) ++ (front ++ 0 ∷ (back ++ 0 ∷ terminated (dirs after))) in
        length added < length out
        → length out < 2 ^ 31
        → read_mounts_from_fd fuel fd out m w
          ≡ (done (pos (length added), added ++ drop (length added) out), w')
  read_mounts_from_fd-cut_file m fd fuel out d hb h ha ne l fit b =
      let o = file_output-cut_file hb h ha ne in
      rw o at ((read_mounts_from_fd_lem m fd fuel out d l (omega arith) b).0 (rw o fit))
