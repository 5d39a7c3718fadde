-- ===== src/Build/Reader/Literals.antt =====
-- Byte strings of the generated file: `c_literal` of ginit.Build.Format and its reader.
pub mod Escapes
use ginit.Base.{
  ℕ, ◌≡◌, refl, ap, leb, ◌==◌, Bool, true, false, ◌&&◌, ◌||◌, not, Bytes, List, flatten, [], ◌∷◌,
  ◌++◌, append_assoc, Option, none, some, text, Free, if◌then◌else◌, arith,
}
use ginit.Build.Str.{◌>>=◌, strip_prefix}
use ginit.Build.Format.{c_literal}
use ginit.Build.Reader.{
  Mode, plain, escape, Step, push, read_chars, literal_step, c_text, read_c_literal,
}

-- The pieces of a template in front of a text.
abbrev pub fill : List Bytes → Bytes → Bytes
fill [] rest = rest
fill (piece ∷ pieces) rest = piece ++ fill pieces rest

pub flatten-fill : (pieces : List Bytes) (rest : Bytes) → flatten pieces ++ rest ≡ fill pieces rest
flatten-fill [] rest = refl
flatten-fill (piece ∷ pieces) rest =
    rw (append_assoc piece (flatten pieces) rest, flatten-fill pieces rest) refl

-- A byte that a byte string holds as it is.
unfoldable is_plain : ℕ → Bool
is_plain b =
    not (b == 0) && (not (b == b'"') && (not (b == b'\\') && (not (b == b'\r') && not (leb 128 b))))

unfoldable pub all_plain : Bytes → Bool
unfolding is_plain
all_plain [] = true
all_plain (b ∷ s) = is_plain b && all_plain s

pub strip_prefix-append : (p s : Bytes) → strip_prefix p (p ++ s) ≡ some s
unfolding strip_prefix
strip_prefix-append [] s = refl
strip_prefix-append (b ∷ p) s = ground (arith, strip_prefix-append p s)

read_chars-plain :
    (s rest : Bytes)
    → all_plain s ≡ true
    → read_chars plain (s ++ b'\\' ∷ b'0' ∷ b'"' ∷ rest) ≡ some (s ++ 0 ∷ [], rest)
unfolding all_plain is_plain read_chars literal_step
read_chars-plain [] rest h = refl
read_chars-plain (b ∷ s) rest h = ground (arith, read_chars-plain s rest)

c_text-plain : (s : Bytes) → all_plain s ≡ true → c_text (s ++ 0 ∷ []) ≡ some s
unfolding all_plain is_plain c_text
c_text-plain [] h = refl
c_text-plain (b ∷ s) h = ground (arith, c_text-plain s)

pub read_c_literal-c_literal :
    (s rest : Bytes) → all_plain s ≡ true → read_c_literal (c_literal s ++ rest) ≡ some (s, rest)
unfolding read_c_literal c_literal text strip_prefix
read_c_literal-c_literal s rest h =
    rw (append_assoc s _ rest, read_chars-plain s _ h, c_text-plain s h) refl
