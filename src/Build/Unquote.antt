-- ===== src/Build/Unquote.antt =====
-- `unquote` of build.rs.
pub mod Shell
pub mod Quoting
use ginit.Base.{
  ℕ, ◌==◌, Bool, true, false, ◌&&◌, ◌||◌, Bytes, [], ◌∷◌, Option, none, some, if◌then◌else◌,
}
use ginit.Build.Str.{◌>>=◌}

-- One pass of the loop: the next `quote` and `escaping`, and what it pushes to `res`.
unfoldable pub unquote_round : (quote : ℕ) (escaping : Bool) (c : ℕ) → (ℕ × Bool) × Option ℕ
unquote_round quote true c = ((quote, false), some c)
unquote_round quote false c =
    if c == b'\\'
    then ((quote, true), none)
    else if quote == 0 && (c == b'\'' || c == b'"')
    then ((c, false), none)
    else if c == quote
    then ((0, false), none)
    else ((quote, false), some c)

-- `res.push(c)` of what a pass pushes, in front of what the later passes push.
abbrev pub push_front : Option ℕ → Option Bytes → Option Bytes
push_front pushed none = none
push_front none (some res) = some res
push_front (some c) (some res) = some (c ∷ res)

-- The loop over the characters and the two assertions behind it.
unfoldable pub unquote_from : (state : ℕ × Bool) → Bytes → Option Bytes
unfolding unquote_round
unquote_from (quote, escaping) [] = if escaping then none else if quote == 0 then some [] else none
unquote_from (quote, escaping) (c ∷ s) =
    let (state, pushed) = unquote_round quote escaping c in push_front pushed (unquote_from state s)

unfoldable pub unquote : Bytes → Option Bytes
unfolding unquote_from
unquote s = unquote_from (0, false) s
