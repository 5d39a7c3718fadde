-- ===== src/Build/Reader/Literals/Escapes.antt =====
-- `build.rs` puts the strings of the settings into byte strings as they are: what the compiler
-- reads where a string has a character with a meaning in Rust.
use ginit.Base.{
  ◌≡◌, refl, true, Bytes, [], ◌∷◌, ◌++◌, append_assoc, append-nil, Option, none, some, text, arith,
}
use ginit.Build.Str.{◌>>=◌, strip_prefix}
use ginit.Build.Format.{c_literal}
use ginit.Build.Reader.{plain, push_char, read_chars, literal_step, c_text, read_c_literal}
use ginit.Build.Reader.Literals.{is_plain, all_plain, read_chars-plain, c_text-plain}

-- Plain bytes in front of what is read next.
abbrev push_all : Bytes → Option (Bytes × Bytes) → Option (Bytes × Bytes)
push_all [] o = o
push_all (c ∷ s) o = push_char c (push_all s o)

read_chars-append :
    (s rest : Bytes)
    → all_plain s ≡ true
    → read_chars plain (s ++ rest) ≡ push_all s (read_chars plain rest)
unfolding all_plain is_plain read_chars literal_step
read_chars-append [] rest h = refl
read_chars-append (b ∷ s) rest h = ground (arith, read_chars-append s rest)

push_all-some : (s bytes rest : Bytes) → push_all s (some (bytes, rest)) ≡ some (s ++ bytes, rest)
push_all-some [] bytes rest = refl
push_all-some (c ∷ s) bytes rest = rw (push_all-some s bytes rest) refl

c_text-none : (s : Bytes) → all_plain s ≡ true → c_text s ≡ none
unfolding all_plain is_plain c_text
c_text-none [] h = refl
c_text-none (b ∷ s) h = ground (arith, c_text-none s)

-- What `read_c_literal` does with the bytes of a byte string and the text behind it.
abbrev pointed : Bytes → Bytes → Option (Bytes × Bytes)
pointed bytes closed = do
  rest ← strip_prefix (text " as *const u8") closed
  value ← c_text bytes
  some (value, rest)

pointed-none : (s closed : Bytes) → all_plain s ≡ true → pointed s closed ≡ none
pointed-none s closed h = rw (c_text-none s h) (go (strip_prefix (text " as *const u8") closed))
  where
    go : (o : Option Bytes) → ◌>>=◌ {B = Bytes × Bytes} o (λ rest. none) ≡ none
    go none = refl
    go (some rest) = refl

-- A double quote in a string closes the byte string in front of its NUL: the file does not compile
-- to a pointer to a C string, whatever follows the quote.
pub read_c_literal-quote :
    (s more rest : Bytes)
    → all_plain s ≡ true
    → read_c_literal (c_literal (s ++ b'"' ∷ more) ++ rest) ≡ none
unfolding read_c_literal c_literal text strip_prefix read_chars literal_step
read_c_literal-quote s more rest h =
    rw
      (
        append_assoc (s ++ b'"' ∷ more) _ rest,
        append_assoc s (b'"' ∷ more) _,
        read_chars-append s _ h,
        push_all-some s [] _,
        append-nil s,
      )
      (pointed-none s (more ++ (text "\\0\" as *const u8" ++ rest)) h)

all_plain-append :
    (s more : Bytes) → all_plain s ≡ true → all_plain more ≡ true → all_plain (s ++ more) ≡ true
unfolding all_plain
all_plain-append [] more h k = k
all_plain-append (b ∷ s) more h k = ground (arith, all_plain-append s more)

c_text-line :
    (s more : Bytes)
    → all_plain s ≡ true
    → all_plain more ≡ true
    → c_text (s ++ b'\n' ∷ (more ++ 0 ∷ [])) ≡ some (s ++ b'\n' ∷ more)
unfolding all_plain is_plain
c_text-line s more h k =
    rw (← append_assoc s (b'\n' ∷ more) (0 ∷ []))
      (c_text-plain (s ++ b'\n' ∷ more) (all_plain-append s (b'\n' ∷ more) h k))

-- A backslash and an `n` in a string become one byte, the end of a line.
pub read_c_literal-backslash :
    (s more rest : Bytes)
    → all_plain s ≡ true
    → all_plain more ≡ true
    → read_c_literal (c_literal (s ++ b'\\' ∷ b'n' ∷ more) ++ rest) ≡ some (s ++ b'\n' ∷ more, rest)
unfolding read_c_literal c_literal text strip_prefix read_chars literal_step
read_c_literal-backslash s more rest h k =
    rw
      (
        append_assoc (s ++ b'\\' ∷ b'n' ∷ more) _ rest,
        append_assoc s (b'\\' ∷ b'n' ∷ more) _,
        read_chars-append s _ h,
        read_chars-plain more _ k,
        push_all-some s _ _,
        c_text-line s more h k,
      )
      refl
