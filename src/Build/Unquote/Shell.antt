-- ===== src/Build/Unquote/Shell.antt =====
-- `unquote` of build.rs beside the quote removal of a POSIX shell.
use ginit.Base.{
  ℕ, ◌≡◌, refl, ◌==◌, Bool, false, ◌||◌, Bytes, [], ◌∷◌, ◌++◌, Option, none, some, if◌then◌else◌,
  Free, Bool-cases, inl, inr, arith,
}
use ginit.Build.Unquote.{unquote_round, push_front, unquote_from, unquote}

-- Where the shell is: outside of quotes, in single or double ones, or behind a backslash.
pub data Quoting : Type 0 where
  outside : Quoting
  single : Quoting
  double : Quoting
  backslash : Quoting
  double_backslash : Quoting

-- The bytes that a backslash in double quotes stands before.
abbrev is_special : ℕ → Bool
is_special c = c == b'$' || (c == b'`' || (c == b'"' || c == b'\\'))

-- The quotes are removed, and the backslashes that quote a byte; a backslash in single quotes
-- stands for itself.
unfoldable shell_round : Quoting → ℕ → Quoting × Bytes
shell_round outside c =
    if c == b'\\'
    then (backslash, [])
    else if c == b'\''
    then (single, [])
    else if c == b'"'
    then (double, [])
    else (outside, c ∷ [])
shell_round single c = if c == b'\'' then (outside, []) else (single, c ∷ [])
shell_round double c =
    if c == b'\\'
    then (double_backslash, [])
    else if c == b'"'
    then (outside, [])
    else (double, c ∷ [])
shell_round backslash c = (outside, if c == b'\n' then [] else c ∷ [])
shell_round double_backslash c =
    (double, if c == b'\n' then [] else if is_special c then c ∷ [] else b'\\' ∷ c ∷ [])

abbrev append_front : Bytes → Option Bytes → Option Bytes
append_front bytes none = none
append_front bytes (some res) = some (bytes ++ res)

-- The text is a word whose quotes are closed.
abbrev at_end : Quoting → Option Bytes
at_end outside = some []
at_end q = none

unfoldable shell_from : Quoting → Bytes → Option Bytes
unfolding shell_round
shell_from q [] = at_end q
shell_from q (c ∷ s) = let (next, bytes) = shell_round q c in append_front bytes (shell_from next s)

unfoldable pub shell_unquote : Bytes → Option Bytes
unfolding shell_from
shell_unquote s = shell_from outside s

push_none : (o : Option Bytes) → push_front none o ≡ append_front [] o
push_none none = refl
push_none (some res) = refl

push_some : (c : ℕ) (o : Option Bytes) → push_front (some c) o ≡ append_front (c ∷ []) o
push_some c none = refl
push_some c (some res) = refl

-- The two agree from each of the states that such a text comes to.
unquote_from-shell_from :
    (s : Bytes)
    → Free 0 s
    → Free b'\\' s
    → (unquote_from (0, false) s ≡ shell_from outside s)
      × (unquote_from (b'\'', false) s ≡ shell_from single s)
      × (unquote_from (b'"', false) s ≡ shell_from double s)
unfolding unquote_from unquote_round shell_from shell_round
unquote_from-shell_from [] z b = (refl, refl, refl)
unquote_from-shell_from (c ∷ s) (not_nul, z) (not_backslash, b) =
    let (in_outside, in_single, in_double) = unquote_from-shell_from s z b in
    (
      grind arith,
      elim (Bool-cases (c == b'\'')) [
        | inl closed ↦ rw (not_backslash, closed, in_outside) (push_none (shell_from outside s))
        | inr open_still ↦
            rw (not_backslash, open_still, in_single) (push_some c (shell_from single s))
      ],
      elim (Bool-cases (c == b'"')) [
        | inl closed ↦ rw (not_backslash, closed, in_outside) (push_none (shell_from outside s))
        | inr open_still ↦
            rw (not_backslash, open_still, in_double) (push_some c (shell_from double s))
      ],
    )

-- A text without a backslash and without a NUL is read as a shell would do, and refused where a
-- shell would wait for the end of a quote.
pub unquote-shell_unquote : (s : Bytes) → Free 0 s → Free b'\\' s → unquote s ≡ shell_unquote s
unfolding unquote shell_unquote
unquote-shell_unquote s z b = (unquote_from-shell_from s z b).0
