-- ===== src/Mounts/Chunk.antt =====
-- One chunk of the mounts file: the inner loop of `read_mounts_from_fd` against `Feed`.
use ginit.Base.{
  ℕ, zero, suc, ◌+◌, ◌<◌, ◌≡◌, refl, sym, ap, ◌∙◌, ◌⊎◌, inl, inr, ◌==◌, leb, lt→not_leb, Bool,
  false, ◌&&◌, Bytes, [], ◌∷◌, ◌++◌, Option, none, some, length, drop, slice, position, Free,
  position-Split, position-Free, length-append, length-drop, append_assoc, Bool-cases,
  if◌then◌else◌, arith,
}
use ginit.Base.Slices.{slice-rest, slice-front, slice_bounds}
use ginit.Mounts.{
  MountParserState, before_directory, directory, after_directory, Parser, Flow, parse_round,
  parse_chunk, advance, go_on, skip_past, copy_directory,
}
use ginit.Mounts.Array.{
  holding, Settles, Settles-nil, length-terminated, terminated-Settles, put-Settles,
}
use ginit.Mounts.Feed.{
  output, end_state, ends_in_space, flush_in, chunk_output, is_nil, before_directory-skip,
  after_directory-skip, directory-copy, ends_in_space-append, before_directory-end,
  after_directory-end, directory-end,
}

pub and_false : (b : Bool) → (b && false) ≡ false
and_false b = ground arith

regroup : (a b c : Bytes) → (a ++ 0 ∷ b) ++ c ≡ (a ++ 0 ∷ []) ++ (b ++ c)
regroup a b c = append_assoc a (0 ∷ b) c ∙ sym (append_assoc a (0 ∷ []) (b ++ c))

module _ (buf : Bytes) (n : ℕ) where
  -- What is added behind a delimiter `x`, with `rest` left of the chunk.
  abbrev rest_output : MountParserState → ℕ → Bytes → Bytes
  rest_output s x rest =
      output s rest
      ++ flush_in ((n == length buf) && (if is_nil rest then x == b' ' else ends_in_space rest))
          (end_state s rest)

  rest_output_more :
      (s : MountParserState) (x : ℕ) (rest : Bytes)
      → (is_nil rest ≡ false) ⊎ ((n == length buf) ≡ false)
      → rest_output s x rest ≡ chunk_output (n == length buf) s rest
  unfolding chunk_output
  rest_output_more s x rest (inl h) = rw h
  rest_output_more s x rest (inr h) = rw h

  -- A delimiter that ends a full buffer adds nothing more.
  abbrev Quiet : MountParserState → ℕ → Type 0
  Quiet directory x = x ≡ b' '
  Quiet _ x = Unit

  rest_output_end :
      (s : MountParserState) (x : ℕ) → Quiet s x → n ≡ length buf → rest_output s x [] ≡ []
  unfolding output end_state
  rest_output_end before_directory x q e = refl
  rest_output_end after_directory x q e = refl
  rest_output_end directory x q e = ground arith

  advance-Settles :
      (s : MountParserState) (content space rest : Bytes) (x done : ℕ) (next : Parser → ℕ → Flow)
      → Quiet s x
      → 0 < length space
      → slice done n buf ≡ some rest
      → Settles
          (end_state s rest)
          content
          (chunk_output (n == length buf) s rest)
          space
          (next (holding s content space) done)
      → Settles
          (end_state s rest)
          content
          (rest_output s x rest)
          space
          (go_on (advance (holding s content space) (length buf) done) next)
  unfolding go_on end_state
  advance-Settles s content space [] x done next q pos sl ih =
      let (p1, p2, p3, p4) = slice_bounds done n buf [] sl in
      elim (Bool-cases (leb (length buf) done)) [
        | inl stop ↦
            let ends : n ≡ length buf = ground arith in
            rw (stop, rest_output_end s x q ends) (Settles-nil s content space pos refl)
        | inr more ↦ rw (more, rest_output_more s x [] (inr (ground arith))) ih
      ]
  advance-Settles s content space (c ∷ rest) x done next q pos sl ih =
      let (p1, p2, p3, p4) = slice_bounds done n buf (c ∷ rest) sl in
      rw (lt→not_leb (length buf) done (omega arith), rest_output_more s x (c ∷ rest) (inl refl)) ih

  -- The rest of the inner loop, on the rest of the chunk.
  abbrev Continues : ℕ → Bytes → (Parser → ℕ → Flow) → Type 0
  Continues done r next =
      (s : MountParserState) (content space rest front : Bytes) (x : ℕ)
      → r ≡ front ++ x ∷ rest
      → 0 < length space
      → Settles (end_state s rest) content (chunk_output (n == length buf) s rest) space
          (next (holding s content space) (done + (length front + 1)))

  module _ (content space r : Bytes) (done : ℕ) (next : Parser → ℕ → Flow) where
    skip-Settles :
        (s target : MountParserState) (x : ℕ)
        → 0 < length space
        → slice done n buf ≡ some r
        → Continues done r next
        → Quiet target x
        → ((rest front : Bytes)
            → Free x front
            → (output s (front ++ x ∷ rest) ≡ output target rest)
              × (end_state s (front ++ x ∷ rest) ≡ end_state target rest))
        → (Free x r → (output s r ≡ []) × (end_state s r ≡ s))
        → ((b : Bool) → flush_in b s ≡ [])
        → Settles
            (end_state s r)
            content
            (chunk_output (n == length buf) s r)
            space
            (go_on (skip_past x target (holding s content space) r (length buf) done) next)
    unfolding skip_past chunk_output go_on
    skip-Settles s target x pos sl ih quiet skips ends flat = go (position x r) refl
      where
        go :
            (o : Option ℕ)
            → position x r ≡ o
            → Settles
                (end_state s r)
                content
                (chunk_output (n == length buf) s r)
                space
                (go_on (skip_past x target (holding s content space) r (length buf) done) next)
        go none e =
            let (o, f) = ends (position-Free x r e) in
            rw (e, skip_past, o, f, flat) (Settles-nil s content space pos refl)
        go (some q) e =
            let t = position-Split x r q e in
            let e' : position x r ≡ some (length t.front) = e ∙ ap some (sym t.front_length) in
            let (o, f) = skips t.rest t.front t.front_Free in
            let sl' = slice-rest done n buf t.front x t.rest (rw t.splits at sl) in
            rw (e', skip_past, t.splits, o, f, ends_in_space-append t.rest t.front x)
              (advance-Settles target content space t.rest x (done + (length t.front + 1)) next
                quiet pos sl' (ih target content space t.rest t.front x t.splits pos))

    copy-Settles :
        0 < length space
        → slice done n buf ≡ some r
        → Continues done r next
        → Settles
            (end_state directory r)
            content
            (chunk_output (n == length buf) directory r)
            space
            (go_on (copy_directory (holding directory content space) r (length buf) done) next)
    unfolding copy_directory chunk_output go_on
    copy-Settles pos sl ih = go (position b' ' r) refl
      where
        go :
            (o : Option ℕ)
            → position b' ' r ≡ o
            → Settles
                (end_state directory r)
                content
                (chunk_output (n == length buf) directory r)
                space
                (go_on (copy_directory (holding directory content space) r (length buf) done) next)
        go none e =
            let (o, f, l) = directory-end r (position-Free b' ' r e) in
            rw (e, copy_directory, o, l, f, and_false) (terminated-Settles content space r next)
        go (some q) e =
            let t = position-Split b' ' r q e in
            let e' : position b' ' r ≡ some (length t.front) = e ∙ ap some (sym t.front_length) in
            let (o, f) = directory-copy t.rest t.front t.front_Free in
            let sl' = slice-rest done n buf t.front b' ' t.rest (rw t.splits at sl) in
            rw
              (
                e',
                copy_directory,
                t.splits,
                slice-front t.front (b' ' ∷ t.rest),
                copy_directory,
                o,
                f,
                ends_in_space-append t.rest t.front b' ',
                regroup,
              )
              (put-Settles _ content space t.front _ _ next λ l.
                let content' = content ++ (t.front ++ 0 ∷ []) in
                let space' = drop (length (t.front ++ 0 ∷ [])) space in
                let pos' : 0 < length space' = omega (
                  arith,
                  length-terminated content space t.front,
                  length-drop (length (t.front ++ 0 ∷ [])) space,
                ) in
                advance-Settles after_directory content' space' t.rest b' '
                  (done + (length t.front + 1)) next tt pos' sl'
                  (ih after_directory content' space' t.rest t.front b' ' t.splits pos'))

  continues :
      (fuel : ℕ) (r : Bytes) (done : ℕ)
      → slice done n buf ≡ some r
      → length r < suc fuel
      → ((s : MountParserState) (content space rest : Bytes) (done' : ℕ)
          → 0 < length space
          → slice done' n buf ≡ some rest
          → length rest < fuel
          → Settles
              (end_state s rest)
              content
              (chunk_output (n == length buf) s rest)
              space
              (parse_chunk fuel (holding s content space) buf n done'))
      → Continues done r (λ p' done'. parse_chunk fuel p' buf n done')
  continues fuel r done sl l ih s content space rest front x e pos =
      ih s content space rest (done + (length front + 1)) pos
        (slice-rest done n buf front x rest (rw e at sl))
        (omega (arith, ap length e, length-append front (x ∷ rest)))

  -- The inner loop, from any state and any place in the chunk, with fuel for every byte left and
  -- free space in the array, adds what the byte-by-byte reading gives or finds the array too
  -- small.
  pub parse_chunk-Settles :
      (fuel : ℕ) (s : MountParserState) (content space r : Bytes) (done : ℕ)
      → 0 < length space
      → slice done n buf ≡ some r
      → length r < fuel
      → Settles
          (end_state s r)
          content
          (chunk_output (n == length buf) s r)
          space
          (parse_chunk fuel (holding s content space) buf n done)
  unfolding parse_chunk
  parse_chunk-Settles zero s content space r done pos sl l = absurd (omega arith)
  parse_chunk-Settles (suc fuel) before_directory content space r done pos sl l =
      rw (sl, parse_round)
        (skip-Settles content space r done _ before_directory directory b' ' pos sl
          (continues fuel r done sl l (parse_chunk-Settles fuel)) refl
          (λ rest front. before_directory-skip rest front) (before_directory-end r) (λ _. refl))
  parse_chunk-Settles (suc fuel) directory content space r done pos sl l =
      rw (sl, parse_round)
        (copy-Settles content space r done _ pos sl
          (continues fuel r done sl l (parse_chunk-Settles fuel)))
  parse_chunk-Settles (suc fuel) after_directory content space r done pos sl l =
      rw (sl, parse_round)
        (skip-Settles content space r done _ after_directory before_directory b'\n' pos sl
          (continues fuel r done sl l (parse_chunk-Settles fuel)) tt
          (λ rest front. after_directory-skip rest front) (after_directory-end r) (λ _. refl))
