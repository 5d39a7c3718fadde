-- ===== src/Build/Addr/Dotted.antt =====
-- Addresses in dotted notation, for the parser that build.rs calls.
use ginit.Base.{
  ℕ, zero, suc, ◌<◌, ◌≡◌, refl, ◌==◌, ==_iff, Bool, true, false, ◌&&◌, Bool-cases, inl, inr, Bytes,
  [], ◌∷◌, ◌++◌, Option, none, some, Free, arith,
}
use ginit.Linux.Console.{decimal, decimal_from}
use ginit.Linux.Decimal.{AreDigits, decimal-digits_value, digits_value}
use ginit.Build.Str.Parts.{split_once-append}
use ginit.Build.Addr.{is_digit, all_digits, parse_octet, parse_addr}

abbrev pub dotted : ℕ → ℕ → ℕ → ℕ → Bytes
dotted a b c d = decimal a ++ b'.' ∷ (decimal b ++ b'.' ∷ (decimal c ++ b'.' ∷ decimal d))

digits-Free : (ds : Bytes) → AreDigits ds → Free b'.' ds
digits-Free [] d = tt
digits-Free (b ∷ ds) ((lo, hi), d) = (ground arith, digits-Free ds d)

decimal-Free : (n : ℕ) → Free b'.' (decimal n)
decimal-Free n = digits-Free (decimal n) (decimal-digits_value n).1

abbrev octet_comes_back : ℕ → Bool
octet_comes_back n = elim (parse_octet (decimal n)) [ none ↦ false | some m ↦ m == n ]

abbrev all_below : ℕ → (ℕ → Bool) → Bool
all_below zero p = true
all_below (suc n) p = p n && all_below n p

both : (a b : Bool) → (a && b) ≡ true → (a ≡ true) × (b ≡ true)
both false b h = absurd cc
both true b h = (refl, h)

all_below-at : (k n : ℕ) (p : ℕ → Bool) → all_below k p ≡ true → n < k → p n ≡ true
all_below-at zero n p h l = absurd (omega arith)
all_below-at (suc k) n p h l = elim (Bool-cases (n == k)) [
  | inl last ↦ rw ((==_iff n k).0 last) (both (p k) (all_below k p) h).0
  | inr other ↦ all_below-at k n p (both (p k) (all_below k p) h).1 (ground arith)
]

octets_come_back : all_below 256 octet_comes_back ≡ true
unfolding parse_octet all_digits is_digit digits_value decimal decimal_from
octets_come_back = refl

parse_octet-decimal : (n : ℕ) → n < 256 → parse_octet (decimal n) ≡ some n
parse_octet-decimal n l =
    go (parse_octet (decimal n)) (all_below-at 256 n octet_comes_back octets_come_back l)
  where
    go : (o : Option ℕ) → elim o [ none ↦ false | some m ↦ m == n ] ≡ true → o ≡ some n
    go none h = absurd cc
    go (some m) h = ground arith

-- The parser gives back the four octets of the dotted notation.
pub parse_addr-dotted :
    (a b c d : ℕ)
    → a < 256
    → b < 256
    → c < 256
    → d < 256
    → parse_addr (dotted a b c d) ≡ some (a, (b, (c, d)))
unfolding parse_addr
parse_addr-dotted a b c d la lb lc ld =
    rw
      (
        split_once-append b'.' (decimal a) _ (decimal-Free a),
        split_once-append b'.' (decimal b) _ (decimal-Free b),
        split_once-append b'.' (decimal c) _ (decimal-Free c),
        parse_octet-decimal a la,
        parse_octet-decimal b lb,
        parse_octet-decimal c lc,
        parse_octet-decimal d ld,
      )
      refl
