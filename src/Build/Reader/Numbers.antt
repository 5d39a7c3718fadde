-- ===== src/Build/Reader/Numbers.antt =====
-- The numbers of the generated file and their reader.
use ginit.Base.{
  ℕ, zero, suc, ◌+◌, ◌-◌, ◌*◌, ◌/◌, ◌<◌, ◌≡◌, refl, ltb, lt→ltb, Bool-cases, inl, inr, append_assoc,
  true, false, Bytes, [], ◌∷◌, ◌++◌, some, arith,
}
use ginit.Linux.Console.{decimal_from, decimal}
use ginit.Linux.Decimal.{digits_value, AreDigits, decimal-digits_value}
use ginit.Build.Addr.{is_digit}
use ginit.Build.Reader.{number_from, starts_with_digit, read_number}

-- A text that does not go on with a digit.
abbrev pub EndsNumber : Bytes → Type 0
EndsNumber s = starts_with_digit s ≡ false

number_from-EndsNumber : (n : ℕ) (s : Bytes) → EndsNumber s → number_from n s ≡ (n, s)
unfolding number_from is_digit
number_from-EndsNumber n [] h = refl
number_from-EndsNumber n (b ∷ s) h = rw h refl

number_from-append :
    (n : ℕ) (ds rest : Bytes)
    → AreDigits ds
    → EndsNumber rest
    → number_from n (ds ++ rest) ≡ (digits_value n ds, rest)
unfolding number_from is_digit digits_value
number_from-append n [] rest d h = number_from-EndsNumber n rest h
number_from-append n (b ∷ ds) rest ((lo, hi), d) h =
    ground (arith, number_from-append (n * 10 + (b - b'0')) ds rest d h)

starts_with_digit-decimal_from :
    (fuel n : ℕ) (rest : Bytes) → n < fuel → starts_with_digit (decimal_from fuel n ++ rest) ≡ true
unfolding decimal_from is_digit
starts_with_digit-decimal_from zero n rest l = absurd (omega arith)
starts_with_digit-decimal_from (suc fuel) n rest l = elim (Bool-cases (ltb n 10)) [
  | inl one ↦ rw one (ground arith)
  | inr more ↦
      rw (more, append_assoc (decimal_from fuel (n / 10)) _ rest)
        (starts_with_digit-decimal_from fuel (n / 10) _ (ground arith))
]

pub starts_with_digit-decimal :
    (n : ℕ) (rest : Bytes) → starts_with_digit (decimal n ++ rest) ≡ true
unfolding decimal
starts_with_digit-decimal n rest = starts_with_digit-decimal_from (suc n) n rest (omega arith)

pub read_number-decimal :
    (bound n : ℕ) (rest : Bytes)
    → n < bound
    → EndsNumber rest
    → read_number bound (decimal n ++ rest) ≡ some (n, rest)
unfolding read_number
read_number-decimal bound n rest l h =
    let (v, d) = decimal-digits_value n in
    rw
      (
        number_from-append 0 (decimal n) rest d h,
        starts_with_digit-decimal n rest,
        v,
        lt→ltb n bound l,
      )
      refl
