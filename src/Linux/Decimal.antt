-- ===== src/Linux/Decimal.antt =====
-- The digits of the numbers in the messages of src/linux.rs.
use ginit.Base.{
  ℕ, zero, suc, ◌+◌, ◌-◌, ◌*◌, ◌/◌, ◌%◌, ◌≤◌, ◌<◌, ◌≡◌, refl, ltb, ltb→lt, not_ltb→le, Bool-cases,
  inl, inr, Bytes, [], ◌∷◌, ◌++◌, arith,
}
use ginit.Linux.Console.{decimal_from, decimal}

-- The number that digits stand for, behind a number that other digits have given.
unfoldable pub digits_value : ℕ → Bytes → ℕ
digits_value n [] = n
digits_value n (b ∷ bs) = digits_value (n * 10 + (b - b'0')) bs

abbrev pub AreDigits : Bytes → Type 0
AreDigits [] = Unit
AreDigits (b ∷ bs) = ((b'0' ≤ b) × (b ≤ b'9')) × AreDigits bs

digits_value-append :
    (n : ℕ) (xs ys : Bytes) → digits_value n (xs ++ ys) ≡ digits_value (digits_value n xs) ys
unfolding digits_value
digits_value-append n [] ys = refl
digits_value-append n (x ∷ xs) ys = digits_value-append (n * 10 + (x - b'0')) xs ys

AreDigits-append : (xs ys : Bytes) → AreDigits xs → AreDigits ys → AreDigits (xs ++ ys)
AreDigits-append [] ys p q = q
AreDigits-append (x ∷ xs) ys (d, p) q = (d, AreDigits-append xs ys p q)

decimal_from_lem :
    (fuel n : ℕ)
    → n < fuel
    → (digits_value 0 (decimal_from fuel n) ≡ n) × AreDigits (decimal_from fuel n)
unfolding decimal_from digits_value
decimal_from_lem zero n l = absurd (omega arith)
decimal_from_lem (suc fuel) n l = elim (Bool-cases (ltb n 10)) [
  | inl one ↦
      let b = ltb→lt n 10 one in (rw one (omega arith), rw one ((omega arith, omega arith), tt))
  | inr more ↦
      let b = not_ltb→le n 10 more in
      let (v, d) = decimal_from_lem fuel (n / 10) (omega arith) in
      (
        rw (more, digits_value-append 0 (decimal_from fuel (n / 10)) ((b'0' + n % 10) ∷ []), v)
            (omega arith),
        rw more
            (AreDigits-append (decimal_from fuel (n / 10)) _ d ((omega arith, omega arith), tt)),
      )
]

-- The text of a number consists of digits, and they stand for the number.
pub decimal-digits_value : (n : ℕ) → (digits_value 0 (decimal n) ≡ n) × AreDigits (decimal n)
unfolding decimal
decimal-digits_value n = decimal_from_lem (suc n) n (omega arith)
