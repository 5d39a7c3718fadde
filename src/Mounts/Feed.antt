-- ===== src/Mounts/Feed.antt =====
-- The mounts file read byte by byte: what src/mounts.rs is to copy, with no arrays and no reads.
use ginit.Base.{
  ℕ, ◌≡◌, refl, ◌==◌, Bool, true, false, ◌&&◌, Bytes, [], ◌∷◌, ◌++◌, Free, if◌then◌else◌, arith,
}
use ginit.Mounts.{MountParserState, before_directory, directory, after_directory}

-- The state behind a byte.
abbrev pub next_state : MountParserState → ℕ → MountParserState
next_state before_directory c = if c == b' ' then directory else before_directory
next_state directory c = if c == b' ' then after_directory else directory
next_state after_directory c = if c == b'\n' then before_directory else after_directory

-- The bytes that a byte puts into the array.
abbrev pub byte_output : MountParserState → ℕ → Bytes
byte_output directory c = if c == b' ' then 0 ∷ [] else c ∷ []
byte_output _ c = []

unfoldable pub end_state : MountParserState → Bytes → MountParserState
end_state s [] = s
end_state s (c ∷ cs) = end_state (next_state s c) cs

unfoldable pub output : MountParserState → Bytes → Bytes
output s [] = []
output s (c ∷ cs) = byte_output s c ++ output (next_state s c) cs

abbrev pub is_nil : Bytes → Bool
is_nil [] = true
is_nil (_ ∷ _) = false

-- The last byte is a space.
unfoldable pub ends_in_space : Bytes → Bool
ends_in_space [] = false
ends_in_space (c ∷ cs) = if is_nil cs then c == b' ' else ends_in_space cs

-- What is added at the end of a chunk that ends in a directory: a NUL, but for a full buffer whose
-- last byte is the space before the directory.
abbrev pub flush_in : Bool → MountParserState → Bytes
flush_in skip directory = if skip then [] else 0 ∷ []
flush_in skip _ = []

abbrev pub flush : Bool → MountParserState → Bytes → Bytes
flush full s chunk = flush_in (full && ends_in_space chunk) (end_state s chunk)

-- All that a chunk adds to the array.
unfoldable pub chunk_output : Bool → MountParserState → Bytes → Bytes
unfolding output end_state ends_in_space
chunk_output full s chunk = output s chunk ++ flush full s chunk

-- Bytes that leave a state as it is.
module _ (rest : Bytes) where
  pub before_directory-skip :
      (front : Bytes)
      → Free b' ' front
      → (output before_directory (front ++ b' ' ∷ rest) ≡ output directory rest)
        × (end_state before_directory (front ++ b' ' ∷ rest) ≡ end_state directory rest)
  unfolding output end_state
  before_directory-skip [] f = (refl, refl)
  before_directory-skip (c ∷ cs) f = ground (arith, before_directory-skip cs)

  pub after_directory-skip :
      (front : Bytes)
      → Free b'\n' front
      → (output after_directory (front ++ b'\n' ∷ rest) ≡ output before_directory rest)
        × (end_state after_directory (front ++ b'\n' ∷ rest) ≡ end_state before_directory rest)
  unfolding output end_state
  after_directory-skip [] f = (refl, refl)
  after_directory-skip (c ∷ cs) f = ground (arith, after_directory-skip cs)

  pub directory-copy :
      (front : Bytes)
      → Free b' ' front
      → (output directory (front ++ b' ' ∷ rest) ≡ front ++ 0 ∷ output after_directory rest)
        × (end_state directory (front ++ b' ' ∷ rest) ≡ end_state after_directory rest)
  unfolding output end_state
  directory-copy [] f = (refl, refl)
  directory-copy (c ∷ cs) f = ground (arith, directory-copy cs)

  -- With a delimiter in it, a chunk ends in a space if what follows does, or if the delimiter is
  -- the space and ends the chunk.
  pub ends_in_space-append :
      (front : Bytes) (x : ℕ)
      → ends_in_space (front ++ x ∷ rest) ≡ (if is_nil rest then x == b' ' else ends_in_space rest)
  unfolding ends_in_space
  ends_in_space-append [] x = refl
  ends_in_space-append (c ∷ []) x = refl
  ends_in_space-append (c ∷ d ∷ cs) x = ends_in_space-append (d ∷ cs) x

pub before_directory-end :
    (r : Bytes)
    → Free b' ' r
    → (output before_directory r ≡ []) × (end_state before_directory r ≡ before_directory)
unfolding output end_state
before_directory-end [] f = (refl, refl)
before_directory-end (c ∷ cs) f = ground (arith, before_directory-end cs)

pub after_directory-end :
    (r : Bytes)
    → Free b'\n' r
    → (output after_directory r ≡ []) × (end_state after_directory r ≡ after_directory)
unfolding output end_state
after_directory-end [] f = (refl, refl)
after_directory-end (c ∷ cs) f = ground (arith, after_directory-end cs)

pub directory-end :
    (r : Bytes)
    → Free b' ' r
    → (output directory r ≡ r) × (end_state directory r ≡ directory) × (ends_in_space r ≡ false)
unfolding output end_state ends_in_space
directory-end [] f = (refl, refl, refl)
directory-end (c ∷ []) f = ground arith
directory-end (c ∷ d ∷ cs) f = ground (arith, directory-end (d ∷ cs))
