-- ===== src/Build/Str.antt =====
-- The functions of the standard library on strings that build.rs uses, over UTF-8 bytes. A
-- search for an ASCII character in a string is one for its byte, and `char`s compare as bytes do.
pub mod Parts
use ginit.Base.{
  ℕ, zero, suc, ltb, leb, ◌==◌, Bool, true, false, ◌&&◌, ◌||◌, Bytes, List, [], ◌∷◌, Option, none,
  some, if◌then◌else◌, ◌≡◌, refl, ◌⊎◌, inl, inr,
}

-- A panic ends what follows it.
infixl 20 ◌>>=◌
abbrev pub ◌>>=◌ : {A B : Type 0} → Option A → (A → Option B) → Option B
none >>= f = none
some a >>= f = f a

-- `b >= lo && b <= hi`
abbrev in_range : ℕ → ℕ → ℕ → Bool
in_range lo hi b = leb lo b && leb b hi

-- The first byte of a character: how many bytes follow, and the range of the first of them.
unfoldable lead_byte : ℕ → Option (ℕ × (ℕ × ℕ))
lead_byte b =
    if ltb b 0x80
    then some (0, (0x80, 0xbf))
    else if in_range 0xc2 0xdf b
    then some (1, (0x80, 0xbf))
    else if b == 0xe0
    then some (2, (0xa0, 0xbf))
    else if b == 0xed
    then some (2, (0x80, 0x9f))
    else if in_range 0xe1 0xef b
    then some (2, (0x80, 0xbf))
    else if b == 0xf0
    then some (3, (0x90, 0xbf))
    else if in_range 0xf1 0xf3 b
    then some (3, (0x80, 0xbf))
    else if b == 0xf4
    then some (3, (0x80, 0x8f))
    else none

-- The text inside of a character with `k` bytes to come.
unfoldable utf8_from : ℕ → ℕ × ℕ → Bytes → Bool
unfolding lead_byte
utf8_from zero r [] = true
utf8_from zero r (b ∷ bs) = elim (lead_byte b) [
  | none ↦ false
  | some (k, range) ↦ utf8_from k range bs
]
utf8_from (suc k) r [] = false
utf8_from (suc k) (lo, hi) (b ∷ bs) =
    if in_range lo hi b then utf8_from k (0x80, 0xbf) bs else false

-- `str::from_utf8(s).is_ok()`
unfoldable pub is_utf8 : Bytes → Bool
unfolding utf8_from
is_utf8 s = utf8_from 0 (0x80, 0xbf) s

-- `str::from_utf8(s).unwrap()`
unfoldable pub from_utf8 : Bytes → Option Bytes
unfolding is_utf8
from_utf8 s = if is_utf8 s then some s else none

unfoldable starts_with_lf : Bytes → Bool
starts_with_lf [] = false
starts_with_lf (b ∷ bs) = b == b'\n'

-- A byte in front of the first line.
abbrev cons_first : ℕ → List Bytes → List Bytes
cons_first b [] = (b ∷ []) ∷ []
cons_first b (line ∷ rest) = (b ∷ line) ∷ rest

-- `s.lines()`: the lines without their "\n" or "\r\n", of which the last line needs none.
unfoldable pub lines : Bytes → List Bytes
unfolding starts_with_lf
lines [] = []
lines (b ∷ bs) =
    let rest = lines bs in
    if b == b'\n'
    then [] ∷ rest
    else if b == b'\r' && starts_with_lf bs
    then rest
    else cons_first b rest

-- `s.strip_prefix(p)`
unfoldable pub strip_prefix : Bytes → Bytes → Option Bytes
strip_prefix [] s = some s
strip_prefix (p ∷ ps) [] = none
strip_prefix (p ∷ ps) (b ∷ bs) = if p == b then strip_prefix ps bs else none

-- The two parts of `s.splitn(2, c)`, `none` where there is only one.
unfoldable pub split_once : ℕ → Bytes → Option (Bytes × Bytes)
split_once c [] = none
split_once c (b ∷ bs) =
    if b == c
    then some ([], bs)
    else elim (split_once c bs) [ none ↦ none | some (front, back) ↦ some (b ∷ front, back) ]

-- `a == b` of two strings
unfoldable pub str_eq : Bytes → Bytes → Bool
str_eq [] [] = true
str_eq [] (b ∷ bs) = false
str_eq (a ∷ rest) [] = false
str_eq (a ∷ rest) (b ∷ bs) = if a == b then str_eq rest bs else false

-- `a <= b` of two strings
unfoldable pub str_le : Bytes → Bytes → Bool
str_le [] b = true
str_le (a ∷ rest) [] = false
str_le (a ∷ rest) (b ∷ bs) = if a == b then str_le rest bs else ltb a b

-- A chain that gives a result has come through its first part.
pub bind-some :
    {A B : Type 0} (o : Option A) (f : A → Option B) (b : B)
    → (o >>= f) ≡ some b
    → (a : A) × (o ≡ some a) × (f a ≡ some b)
bind-some none f b e = absurd cc
bind-some (some a) f b e = (a, refl, e)

pub Option-cases : {A : Type 0} (o : Option A) → (o ≡ none) ⊎ ((a : A) × (o ≡ some a))
Option-cases none = inl refl
Option-cases (some a) = inr (a, refl)
