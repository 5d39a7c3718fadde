-- ===== src/Mounts/Array.antt =====
-- The array of `read_mounts_from_fd`: what a directory put into it changes, and when it is full.
use ginit.Base.{
  ℕ, ◌+◌, ◌≤◌, ◌<◌, ◌≡◌, sym, ap, ◌∙◌, inl, inr, ltb, le→leb, lt→not_leb, ltb→lt, not_ltb→le, Bytes,
  [], ◌∷◌, ◌++◌, some, length, drop, neg, copy_from_slice, length-append, length-drop, append-nil,
  append_assoc, Bool-cases, arith,
}
use ginit.Base.Slices.{copy_from_slice-append, drop-drop}
use ginit.Linux.Consts.{enomem}
use ginit.Mounts.{
  MountParserState, directory, Parser, Flow, broke, returned, guarded_put, put_piece, go_on,
}

-- The array is `content`, up to the cursor, and `space` behind it.
abbrev pub holding : MountParserState → Bytes → Bytes → Parser
holding s content space = record { state = s; cursor = length content; out = content ++ space }

-- The same when `added` has gone in.
abbrev pub with_added : MountParserState → Bytes → Bytes → Bytes → Parser
with_added s content added space = holding s (content ++ added) (drop (length added) space)

-- All of `added` goes in if a byte stays free behind it, and the array is too small if not.
pub record Settles (s : MountParserState) (content added space : Bytes) (f : Flow) : Type 0 where
  pub fits : length added < length space → f ≡ broke (with_added s content added space)
  pub full : length space ≤ length added → (o : Bytes) × (f ≡ returned (neg enomem) o)

module _ (content space piece : Bytes) where
  pub length-terminated : length (piece ++ 0 ∷ []) ≡ length piece + 1
  length-terminated = omega (arith, length-append piece (0 ∷ []))

  -- The copy of the NUL behind the copy of the piece.
  copy_terminator :
      length piece + 1 ≤ length space
      → copy_from_slice
          (content ++ (piece ++ drop (length piece) space))
          (length content + length piece)
          (0 ∷ [])
        ≡ some ((content ++ (piece ++ 0 ∷ [])) ++ drop (length (piece ++ 0 ∷ [])) space)
  copy_terminator fit =
      let l : length content + length piece ≡ length (content ++ piece) =
        sym (length-append content piece) in
      let c =
        copy_from_slice-append (content ++ piece) (drop (length piece) space) (0 ∷ [])
          (omega (arith, length-drop (length piece) space)) in
      rw
        (
          l,
          ← append_assoc content piece (drop (length piece) space),
          c,
          length-terminated,
          ← drop-drop (length piece) 1 space,
        )
        (ap some (simp append_assoc))

  put_piece_lem :
      (s : MountParserState)
      → length piece + 1 ≤ length space
      → put_piece (holding s content space) piece
        ≡ some (with_added s content (piece ++ 0 ∷ []) space)
  unfolding put_piece
  put_piece_lem s fit =
      let n : length content + length piece + 1 ≡ length (content ++ (piece ++ 0 ∷ [])) =
        omega (arith, length-append content (piece ++ 0 ∷ []), length-terminated) in
      rw (copy_from_slice-append content space piece (omega arith), put_piece)
        (rw (copy_terminator fit, put_piece) (rw n))

  guarded_put_fits :
      (s : MountParserState) (next : Parser → Flow)
      → length piece + 1 < length space
      → guarded_put (holding s content space) piece next
        ≡ next (with_added s content (piece ++ 0 ∷ []) space)
  unfolding guarded_put
  guarded_put_fits s next fit = rw (
    lt→not_leb (length (content ++ space)) (length content + length piece + 1)
        (omega (arith, length-append content space)),
    put_piece_lem s (omega arith),
    guarded_put,
  )

  guarded_put_full :
      (s : MountParserState) (next : Parser → Flow)
      → length space ≤ length piece + 1
      → guarded_put (holding s content space) piece next ≡ returned (neg enomem) (content ++ space)
  unfolding guarded_put
  guarded_put_full s next full = rw (
      le→leb (length (content ++ space)) (length content + length piece + 1)
        (omega (arith, length-append content space)))

module _ (s : MountParserState) (content space : Bytes) where
  pub Settles-nil :
      {f : Flow}
      → 0 < length space
      → f ≡ broke (holding s content space)
      → Settles s content [] space f
  Settles-nil pos e = record { fits = λ _. e ∙ rw append-nil; full = λ l. absurd (omega arith) }

  Settles-append :
      (a b : Bytes) {f : Flow}
      → Settles s (content ++ a) b (drop (length a) space) f
      → Settles s content (a ++ b) space f
  Settles-append a b {f} h = record {
    fits = λ l.
        h.fits (omega (arith, length-append a b, length-drop (length a) space))
        ∙ rw (append_assoc content a b, drop-drop (length a) (length b) space, length-append a b);
    full = λ l. h.full (omega (arith, length-append a b, length-drop (length a) space));
  }

  Settles-full :
      (a b : Bytes) {f : Flow} {o : Bytes}
      → length space ≤ length a
      → f ≡ returned (neg enomem) o
      → Settles s content (a ++ b) space f
  Settles-full a b {o} l e = record {
    fits = λ l'. absurd (omega (arith, length-append a b));
    full = λ l'. (o, e);
  }

-- A directory that ends the chunk.
pub terminated-Settles :
    (content space r : Bytes) (next : Parser → ℕ → Flow)
    → Settles directory content
        (r ++ 0 ∷ [])
        space
        (go_on (guarded_put (holding directory content space) r (λ p'. broke p')) next)
unfolding go_on
terminated-Settles content space r next = record {
  fits = λ l. rw (
      guarded_put_fits content space r directory (λ p'. broke p')
        (omega (arith, length-terminated content space r)));
  full = λ l. (
    content ++ space,
    rw (
        guarded_put_full content space r directory (λ p'. broke p')
          (omega (arith, length-terminated content space r))),
  );
}

-- A directory with a rest behind it.
pub put-Settles :
    (s : MountParserState) (content space piece more : Bytes) (next : Parser → Flow)
    (after : Parser → ℕ → Flow)
    → (length piece + 1 < length space
        → Settles s
            (content ++ (piece ++ 0 ∷ []))
            more
            (drop (length (piece ++ 0 ∷ [])) space)
            (go_on (next (with_added directory content (piece ++ 0 ∷ []) space)) after))
    → Settles s content
        ((piece ++ 0 ∷ []) ++ more)
        space
        (go_on (guarded_put (holding directory content space) piece next) after)
unfolding go_on
put-Settles s content space piece more next after ih =
    elim (Bool-cases (ltb (length piece + 1) (length space))) [
      | inl fit ↦
          let l = ltb→lt (length piece + 1) (length space) fit in
          Settles-append s content space (piece ++ 0 ∷ []) more
            (rw (guarded_put_fits content space piece directory next l) (ih l))
      | inr full ↦
          let l = not_ltb→le (length piece + 1) (length space) full in
          Settles-full s content space (piece ++ 0 ∷ []) more {o = content ++ space}
            (omega (arith, length-terminated content space piece))
            (rw (guarded_put_full content space piece directory next l))
    ]
