-- ===== src/Mounts/File.antt =====
-- The whole of `read_mounts_from_fd`, for every way in which the reads cut the file.
use ginit.Base.{
  ℕ, zero, suc, ◌^◌, ◌≤◌, ◌<◌, ◌≡◌, refl, ◌∙◌, ◌==◌, ltb, ltb→lt, lt→ltb, not_ltb→le, inl, inr, ℤ,
  pos, neg, try_i32, Bytes, List, [], ◌∷◌, ◌++◌, length, drop, zeros, overwrite, length-zeros,
  length-overwrite, length-append, length-drop, append-nil, append_assoc, Bool-cases, arith,
}
use ginit.Base.Slices.{slice-overwrite, drop-drop}
use ginit.Machine.{Machine, World, Outcome, done, M}
use ginit.Linux.Consts.{enomem}
use ginit.Linux.Calls.{read}
use ginit.Linux.Console.{unwrap}
use ginit.Mounts.{
  MountParserState, before_directory, read_loop, on_read, after_chunk, parse_chunk, Parser,
  read_mounts_from_fd,
}
use ginit.Mounts.Feed.{end_state, chunk_output}
use ginit.Mounts.Array.{holding, Settles}
use ginit.Mounts.Chunk.{parse_chunk-Settles}

-- The reads from `fd` give these chunks, of 1 to 256 bytes, and then the end of the file.
pub data Delivers (m : Machine) (fd : ℕ) : World → List Bytes → World → Type 0 where
  eof :
      {w w' : World} {buf : Bytes}
      → read fd (zeros 256) m w ≡ (done (pos 0, buf), w')
      → Delivers m fd w [] w'
  chunk :
      {w w' w'' : World} {c : Bytes} {cs : List Bytes}
      → 0 < length c
      → length c ≤ 256
      → read fd (zeros 256) m w ≡ (done (pos (length c), overwrite (zeros 256) c), w')
      → Delivers m fd w' cs w''
      → Delivers m fd w (c ∷ cs) w''

-- What the chunks add to the array, from a state.
unfoldable pub file_output : MountParserState → List Bytes → Bytes
file_output s [] = []
file_output s (c ∷ cs) = chunk_output (length c == 256) s c ++ file_output (end_state s c) cs

-- The result and the array, or the error.
abbrev Result : Type 0
Result = Outcome (ℤ × Bytes) × World

record Reads (content added space : Bytes) (w : World) (r : Result) : Type 0 where
  pub fits :
      length added < length space
      → r ≡ (
        done (pos (length (content ++ added)), (content ++ added) ++ drop (length added) space),
        w,
      )
  pub full :
      length space ≤ length added → (o : Bytes) × (w' : World) × (r ≡ (done (neg enomem, o), w'))

module _ (content space : Bytes) (w : World) where
  Reads-append :
      (a b : Bytes) {r : Result}
      → Reads (content ++ a) b (drop (length a) space) w r
      → Reads content (a ++ b) space w r
  Reads-append a b h = record {
    fits = λ l.
        h.fits (omega (arith, length-append a b, length-drop (length a) space))
        ∙ rw (append_assoc content a b, drop-drop (length a) (length b) space, length-append a b);
    full = λ l. h.full (omega (arith, length-append a b, length-drop (length a) space));
  }

  Reads-full :
      (a b : Bytes) {r : Result} (o : Bytes) (w' : World)
      → length space ≤ length a
      → r ≡ (done (neg enomem, o), w')
      → Reads content (a ++ b) space w r
  Reads-full a b o w' l e = record {
    fits = λ l'. absurd (omega (arith, length-append a b));
    full = λ l'. (o, w', e);
  }

module _ (m : Machine) (fd : ℕ) where
  -- One chunk, with fuel for its bytes.
  chunk-Settles :
      (s : MountParserState) (content space c : Bytes)
      → 0 < length space
      → length c ≤ 256
      → Settles (end_state s c) content (chunk_output (length c == 256) s c) space (
          parse_chunk
            (suc (length c))
            (holding s content space)
            (overwrite (zeros 256) c)
            (length c)
            0)
  chunk-Settles s content space c room l =
      let len : length (overwrite (zeros 256) c) ≡ 256 =
        length-overwrite (zeros 256) c ∙ length-zeros 256 in
      rw len at (
        parse_chunk-Settles (overwrite (zeros 256) c) (length c) (suc (length c)) s content space c
          0 room (slice-overwrite (zeros 256) c (omega (arith, length-zeros 256))) (omega arith))

  on_chunk :
      (c buf : Bytes) (p : Parser) (next : Parser → M (ℤ × Bytes))
      → 0 < length c
      → on_read (pos (length c)) buf p next
        ≡ after_chunk (parse_chunk (suc (length c)) p buf (length c) 0) next
  unfolding on_read
  on_chunk [] buf p next h = absurd (omega arith)
  on_chunk (x ∷ xs) buf p next h = refl

  read_loop_lem :
      (fuel : ℕ) (s : MountParserState) (content space : Bytes) {w w' : World} {cs : List Bytes}
      → Delivers m fd w cs w'
      → length cs < fuel
      → 0 < length space
      → length (content ++ space) < 2 ^ 31
      → Reads content (file_output s cs) space w' (read_loop fuel fd (holding s content space) m w)
  unfolding read_loop file_output try_i32
  read_loop_lem zero s content space d l p b = absurd (omega arith)
  read_loop_lem (suc fuel) s content space (eof e) l p b = record {
    fits = λ _. rw e (
        rw (lt→ltb (length content) (2 ^ 31) (omega (arith, length-append content space)), unwrap)
          (rw append-nil));
    full = λ l'. absurd (omega arith);
  }
  read_loop_lem (suc fuel) s content space (chunk {c} {cs} q r e d) l p b =
      rw (e, on_chunk c (overwrite (zeros 256) c) (holding s content space) (read_loop fuel fd) q)
        (elim (Bool-cases (ltb (length a) (length space))) [
          | inl fit ↦
              let l' = ltb→lt (length a) (length space) fit in
              rw (settled.fits l', after_chunk)
                (Reads-append content space _ a _ (
                  read_loop_lem fuel (end_state s c) (content ++ a) (drop (length a) space) d
                    (omega arith) (omega (arith, length-drop (length a) space))
                    (omega (
                      arith,
                      length-append content space,
                      length-append content a,
                      length-append (content ++ a) (drop (length a) space),
                      length-drop (length a) space,
                    ))))
          | inr big ↦
              let l' = not_ltb→le (length a) (length space) big in
              let (o, e') = settled.full l' in
              rw (e', after_chunk) (Reads-full content space _ a _ o _ l' refl)
        ])
    where
      a : Bytes
      a = chunk_output (length c == 256) s c

      settled : Settles (end_state s c) content (chunk_output (length c == 256) s c) space (
          parse_chunk
            (suc (length c))
            (holding s content space)
            (overwrite (zeros 256) c)
            (length c)
            0)
      settled = chunk-Settles s content space c p r

-- With fuel for the chunks and an array that is not empty and has less than 2 ^ 31 bytes, for
-- every way in which the reads cut the file: if all that the chunks add fits into the array with a
-- byte to spare, the function returns its length, has it at the start of the array and leaves the
-- rest of the array alone; if not, it returns -ENOMEM.
pub read_mounts_from_fd_lem :
    (m : Machine) (fd fuel : ℕ) (out : Bytes) {w w' : World} {cs : List Bytes}
    → Delivers m fd w cs w'
    → length cs < fuel
    → 0 < length out
    → length out < 2 ^ 31
    → let added = file_output before_directory cs in
      (length added < length out
        → read_mounts_from_fd fuel fd out m w
          ≡ (done (pos (length added), added ++ drop (length added) out), w'))
      × (length out ≤ length added
          → (o : Bytes) × (w'' : World) × (read_mounts_from_fd fuel fd out m w
              ≡ (done (neg enomem, o), w'')))
unfolding read_mounts_from_fd
read_mounts_from_fd_lem m fd fuel out d l p b =
    let r = read_loop_lem m fd fuel before_directory [] out d l p b in (r.fits, r.full)
