-- ===== src/Build/Unquote/Quoting.antt =====
-- Texts that are quoted, and what `unquote` of build.rs makes of them.
use ginit.Base.{
  ℕ, ◌≡◌, refl, ◌==◌, Bool, false, ◌||◌, Bytes, [], ◌∷◌, ◌++◌, some, if◌then◌else◌, Free,
  Bool-cases, inl, inr, arith,
}
use ginit.Build.Unquote.{unquote_round, unquote_from, unquote}

-- The characters that have a meaning for `unquote` outside of quotes.
abbrev is_special : ℕ → Bool
is_special c = c == b'\\' || (c == b'\'' || (c == b'"' || c == 0))

-- A backslash in front of each of them.
unfoldable pub escape : Bytes → Bytes
escape [] = []
escape (c ∷ s) = let rest = escape s in if is_special c then b'\\' ∷ c ∷ rest else c ∷ rest

-- The text outside of quotes: an escaped character, or one that has no meaning.
escape-cons :
    (c : ℕ) (s res : Bytes)
    → unquote_from (0, false) s ≡ some res
    → unquote_from (0, false) (if is_special c then b'\\' ∷ c ∷ s else c ∷ s) ≡ some (c ∷ res)
unfolding unquote_from unquote_round
escape-cons c s res h = elim (Bool-cases (is_special c)) [
  | inl special ↦ rw (special, h) refl
  | inr usual ↦
      let not_backslash : (c == b'\\') ≡ false = ground arith in
      let not_single : (c == b'\'') ≡ false = ground arith in
      let not_double : (c == b'"') ≡ false = ground arith in
      let not_nul : (c == 0) ≡ false = ground arith in
      rw (usual, not_backslash, not_single, not_double, not_nul, h) refl
]

unquote_from-escape : (s : Bytes) → unquote_from (0, false) (escape s) ≡ some s
unfolding unquote_from escape
unquote_from-escape [] = refl
unquote_from-escape (c ∷ s) = escape-cons c (escape s) s (unquote_from-escape s)

-- Every text comes back from its escaped form.
pub unquote-escape : (s : Bytes) → unquote (escape s) ≡ some s
unfolding unquote
unquote-escape s = unquote_from-escape s

unquote_from-quoted :
    (s : Bytes)
    → Free b'\'' s
    → Free b'\\' s
    → unquote_from (b'\'', false) (s ++ b'\'' ∷ []) ≡ some s
unfolding unquote_from unquote_round
unquote_from-quoted [] q b = refl
unquote_from-quoted (c ∷ s) (no_quote, q) (no_backslash, b) =
    rw (no_backslash, no_quote, unquote_from-quoted s q b) refl

-- A text in single quotes, without a single quote and without a backslash, comes back.
pub unquote-quoted :
    (s : Bytes) → Free b'\'' s → Free b'\\' s → unquote (b'\'' ∷ (s ++ b'\'' ∷ [])) ≡ some s
unfolding unquote unquote_from unquote_round
unquote-quoted s q b = rw (unquote_from-quoted s q b) refl
