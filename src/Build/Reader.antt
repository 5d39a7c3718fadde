-- ===== src/Build/Reader.antt =====
-- A reader of the Rust that the templates of build.rs produce: byte strings with the escapes of
-- the language, numbers within the range of their type, and the items of the generated file in the
-- order of the template. `none` is a text that the compiler refuses or another program.
pub mod Literals
pub mod Numbers
use ginit.Base.{
  ℕ, zero, suc, ◌+◌, ◌-◌, ◌*◌, ltb, leb, ◌==◌, Bool, true, false, ◌&&◌, ◌||◌, Bytes, List, [], ◌∷◌,
  Option, none, some, if◌then◌else◌, text,
}
use ginit.Build.Str.{◌>>=◌, strip_prefix}
use ginit.Build.Addr.{is_digit}

-- Where the reader is in a byte string: `hex_low` has the first digit of "\x..".
pub data Mode : Type 0 where
  plain : Mode
  escape : Mode
  hex : Mode
  hex_low : ℕ → Mode
  continued : Mode

pub data Step : Type 0 where
  close : Step
  next : Mode → Step
  push : ℕ → Step
  refuse : Step

abbrev plain_step : ℕ → Step
plain_step b =
    if b == b'"'
    then close
    else if b == b'\\'
    then next escape
    else if b == b'\r' || leb 128 b
    then refuse
    else push b

abbrev escape_step : ℕ → Step
escape_step b =
    if b == b'0'
    then push 0
    else if b == b'n'
    then push b'\n'
    else if b == b'r'
    then push b'\r'
    else if b == b't'
    then push b'\t'
    else if b == b'\\' || (b == b'\'' || b == b'"')
    then push b
    else if b == b'x'
    then next hex
    else if b == b'\n'
    then next continued
    else refuse

abbrev hex_digit : ℕ → Option ℕ
hex_digit b =
    if is_digit b
    then some (b - b'0')
    else if leb b'a' b && leb b b'f'
    then some (b - b'a' + 10)
    else if leb b'A' b && leb b b'F'
    then some (b - b'A' + 10)
    else none

abbrev is_blank : ℕ → Bool
is_blank b = b == b' ' || (b == b'\n' || (b == b'\t' || b == b'\r'))

unfoldable literal_step : Mode → ℕ → Step
literal_step plain b = plain_step b
literal_step escape b = escape_step b
literal_step hex b = elim (hex_digit b) [ none ↦ refuse | some d ↦ next (hex_low d) ]
literal_step (hex_low h) b = elim (hex_digit b) [ none ↦ refuse | some d ↦ push (h * 16 + d) ]
literal_step continued b = if is_blank b then next continued else plain_step b

abbrev push_char : ℕ → Option (Bytes × Bytes) → Option (Bytes × Bytes)
push_char c none = none
push_char c (some (bytes, rest)) = some (c ∷ bytes, rest)

-- The bytes up to the closing quote, and the text behind it.
unfoldable read_chars : Mode → Bytes → Option (Bytes × Bytes)
unfolding literal_step
read_chars mode [] = none
read_chars mode (b ∷ s) = elim (literal_step mode b) [
  | close ↦ some ([], s)
  | next m ↦ read_chars m s
  | push c ↦ push_char c (read_chars plain s)
  | refuse ↦ none
]

-- The C string that a pointer to the bytes leads to, `none` where they have no NUL.
unfoldable c_text : Bytes → Option Bytes
c_text [] = none
c_text (b ∷ bs) =
    let rest = c_text bs in
    if b == 0 then some [] else elim rest [ none ↦ none | some s ↦ some (b ∷ s) ]

unfoldable pub read_c_literal : Bytes → Option (Bytes × Bytes)
unfolding literal_step read_chars c_text
read_c_literal s = do
  opened ← strip_prefix (text "b\"") s
  (bytes, closed) ← read_chars plain opened
  rest ← strip_prefix (text " as *const u8") closed
  value ← c_text bytes
  some (value, rest)

-- The number that the digits in front give, behind a number that other digits have given.
unfoldable number_from : ℕ → Bytes → ℕ × Bytes
number_from n [] = (n, [])
number_from n (b ∷ s) = if is_digit b then number_from (n * 10 + (b - b'0')) s else (n, b ∷ s)

abbrev pub starts_with_digit : Bytes → Bool
starts_with_digit [] = false
starts_with_digit (b ∷ s) = is_digit b

-- A number of a type that has the values below `bound`.
unfoldable pub read_number : (bound : ℕ) → Bytes → Option (ℕ × Bytes)
unfolding number_from
read_number bound s =
    let (n, rest) = number_from 0 s in
    if starts_with_digit s && ltb n bound then some (n, rest) else none
