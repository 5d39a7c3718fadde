-- ===== src/Base/Lists.antt =====
-- Lists measured and indexed by native numbers, and texts as lists of bytes.
use Prim.Native.Nat.{ℕ, zero, suc, ◌+◌, ◌-◌, ◌*◌, ◌/◌, ◌%◌, min}
use Prim.Native.Char.{code}
use Prim.Native.String.{String}
use mathlib.Core.Path.{◌≡◌, refl, ap}
use mathlib.Core.Bool.{false, ◌&&◌}
use mathlib.Core.List.{List, [], ◌∷◌, ◌++◌}
use mathlib.Core.Logic.{inl, inr}
use mathlib.Core.Option.{Option, none, some}
use native.Mathlib.Omega.{arith}
use ginit.Base.Tests.{◌==◌, leb, if◌then◌else◌, Bool-cases, ==_iff}

abbrev pub Bytes : Type 0
Bytes = List ℕ

-- The bytes of an ASCII literal.
unfoldable pub text : String → Bytes
text String.[] = []
text (String.◌∷◌ c s) = code c ∷ text s

-- The `k` low bytes of `n`, the lowest first.
unfoldable pub le_bytes : ℕ → ℕ → Bytes
le_bytes zero n = []
le_bytes (suc k) n = n % 256 ∷ le_bytes k (n / 256)

-- The number that bytes stand for, the lowest byte first.
unfoldable pub le_value : Bytes → ℕ
le_value [] = 0
le_value (b ∷ bs) = b + 256 * le_value bs

module _ {ℓ} {A : Type ℓ} where
  abbrev pub length : List A → ℕ
  length [] = 0
  length (x ∷ xs) = suc (length xs)

  abbrev pub get_elem? : List A → ℕ → Option A
  get_elem? [] i = none
  get_elem? (x ∷ xs) zero = some x
  get_elem? (x ∷ xs) (suc i) = get_elem? xs i

  abbrev pub take : ℕ → List A → List A
  take zero xs = []
  take (suc n) [] = []
  take (suc n) (x ∷ xs) = x ∷ take n xs

  abbrev pub drop : ℕ → List A → List A
  drop zero xs = xs
  drop (suc n) [] = []
  drop (suc n) (x ∷ xs) = drop n xs

  abbrev pub replicate : ℕ → A → List A
  replicate zero a = []
  replicate (suc n) a = a ∷ replicate n a

  pub length-append : (xs ys : List A) → length (xs ++ ys) ≡ length xs + length ys
  length-append [] ys = omega arith
  length-append (x ∷ xs) ys = omega (arith, length-append xs ys)

  pub length-take : (n : ℕ) (xs : List A) → length (take n xs) ≡ min n (length xs)
  length-take zero xs = omega arith
  length-take (suc n) [] = omega arith
  length-take (suc n) (x ∷ xs) = omega (arith, length-take n xs)

  pub length-drop : (n : ℕ) (xs : List A) → length (drop n xs) ≡ length xs - n
  length-drop zero xs = omega arith
  length-drop (suc n) [] = omega arith
  length-drop (suc n) (x ∷ xs) = omega (arith, length-drop n xs)

  pub length-replicate : (n : ℕ) (a : A) → length (replicate n a) ≡ n
  length-replicate zero a = refl
  length-replicate (suc n) a = ap suc (length-replicate n a)

  pub take-append : (xs ys : List A) → take (length xs) (xs ++ ys) ≡ xs
  take-append [] ys = refl
  take-append (x ∷ xs) ys = ap (◌∷◌ x) (take-append xs ys)

  pub drop-append : (xs ys : List A) → drop (length xs) (xs ++ ys) ≡ ys
  drop-append [] ys = refl
  drop-append (x ∷ xs) ys = drop-append xs ys

  -- A write of `new` from the start of the array `old`, which keeps its length.
  abbrev pub overwrite : List A → List A → List A
  overwrite [] new = []
  overwrite (x ∷ old) [] = x ∷ old
  overwrite (x ∷ old) (y ∷ new) = y ∷ overwrite old new

  pub length-overwrite : (old new : List A) → length (overwrite old new) ≡ length old
  length-overwrite [] new = refl
  length-overwrite (x ∷ old) [] = refl
  length-overwrite (x ∷ old) (y ∷ new) = ap suc (length-overwrite old new)

  -- `xs[i..j]`, `none` where Rust panics.
  unfoldable pub slice : ℕ → ℕ → List A → Option (List A)
  slice i j xs = if leb i j && leb j (length xs) then some (take (j - i) (drop i xs)) else none

  -- `xs[at..at + ys.len()].copy_from_slice(ys)`, `none` where Rust panics.
  unfoldable pub copy_from_slice : List A → ℕ → List A → Option (List A)
  copy_from_slice xs at ys =
      if leb (at + length ys) (length xs)
      then some (take at xs ++ (ys ++ drop (at + length ys) xs))
      else none

-- `[0u8; n]`
unfoldable pub zeros : ℕ → Bytes
zeros n = replicate n 0

pub length-zeros : (n : ℕ) → length (zeros n) ≡ n
unfolding zeros
length-zeros n = length-replicate n 0

-- `xs.iter().position(|b| *b == x)`
unfoldable pub position : ℕ → Bytes → Option ℕ
position x [] = none
position x (b ∷ bs) =
    if b == x then some 0 else elim (position x bs) [ none ↦ none | some p ↦ some (suc p) ]

-- `x` does not occur in the list.
abbrev pub Free : ℕ → Bytes → Type 0
Free x [] = Unit
Free x (b ∷ bs) = ((b == x) ≡ false) × Free x bs

-- The list up to its first `x`, and what follows.
pub record Split (x : ℕ) (r : Bytes) (q : ℕ) : Type 0 where
  pub front : Bytes
  pub rest : Bytes
  pub splits : r ≡ front ++ x ∷ rest
  pub front_length : length front ≡ q
  pub front_Free : Free x front

Split-cons :
    {x b p q : ℕ} {bs : Bytes} → (b == x) ≡ false → suc p ≡ q → Split x bs p → Split x (b ∷ bs) q
Split-cons {b} ne e t = record {
  front = b ∷ t.front;
  rest = t.rest;
  splits = ap (◌∷◌ b) t.splits;
  front_length = omega (arith, t.front_length);
  front_Free = (ne, t.front_Free);
}

pub position-Split : (x : ℕ) (r : Bytes) (q : ℕ) → position x r ≡ some q → Split x r q
unfolding position
position-Split x [] q e = ground arith
position-Split x (b ∷ bs) q e = elim (Bool-cases (b == x)) [
  | inl same ↦ record {
    front = [];
    rest = bs;
    splits = ap (λ (c : ℕ). c ∷ bs) ((==_iff b x).0 same);
    front_length = ground arith;
    front_Free = tt;
  }
  | inr other ↦ go (position x bs) (λ p. position-Split x bs p) other (rw other at e)
]
  where
    go :
        (o : Option ℕ)
        → ((p : ℕ) → o ≡ some p → Split x bs p)
        → (b == x) ≡ false
        → elim o [ none ↦ none | some p ↦ some (suc p) ] ≡ some q
        → Split x (b ∷ bs) q
    go none h ne e' = ground arith
    go (some p) h ne e' = Split-cons ne (ground arith) (h p refl)

pub position-Free : (x : ℕ) (r : Bytes) → position x r ≡ none → Free x r
unfolding position
position-Free x [] e = tt
position-Free x (b ∷ bs) e = ground (arith, position-Free x bs)

module _ {ℓ} {A : Type ℓ} where
  abbrev pub flatten : List (List A) → List A
  flatten [] = []
  flatten (xs ∷ xss) = xs ++ flatten xss

-- The bytes in front of the first NUL: what a pointer to a C string leads to.
unfoldable pub c_str : Bytes → Bytes
c_str [] = []
c_str (b ∷ bs) = if b == 0 then [] else b ∷ c_str bs

pub c_str-append : (a bs : Bytes) → Free 0 a → c_str (a ++ 0 ∷ bs) ≡ a
unfolding c_str
c_str-append [] bs h = refl
c_str-append (b ∷ a) bs (e, h) = rw e (ap (◌∷◌ b) (c_str-append a bs h))
