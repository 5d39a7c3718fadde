-- ===== src/Build/Generated/Addresses.antt =====
-- The addresses of the generated file, as they are read back.
use ginit.Base.{
  ℕ, ◌<◌, ◌≡◌, refl, ap, ◌∙◌, Bytes, [], ◌∷◌, ◌++◌, Option, none, some, text, flatten, arith,
}
use ginit.Net.Encode.{from_be_bytes}
use ginit.Build.Str.{◌>>=◌, bind-some, strip_prefix}
use ginit.Build.Addr.{is_digit, parse_octet, parse_addr, addr_pieces, format_addr}
use ginit.Build.Addr.Dotted.{dotted, parse_addr-dotted}
use ginit.Build.Reader.Literals.{fill, flatten-fill}
use ginit.Build.Reader.Numbers.{read_number-decimal}
use ginit.Build.Generated.{read_addr}

-- The number that an address of the settings stands for.
unfoldable pub addr_value : Option Bytes → Option (Option ℕ)
unfolding parse_addr
addr_value none = some none
addr_value (some val) = do (a, (b, (c, d))) ← parse_addr val; some (some (from_be_bytes a b c d))

-- An octet that the parser returns is a `u8`.
parse_octet-bound : (s : Bytes) (n : ℕ) → parse_octet s ≡ some n → n < 256
unfolding parse_octet
parse_octet-bound [] n e = ground arith
parse_octet-bound (d ∷ ds) n e = ground arith

read_addr-fill :
    (a b c d : ℕ) (rest : Bytes)
    → a < 256
    → b < 256
    → c < 256
    → d < 256
    → read_addr (fill (addr_pieces a b c d) rest) ≡ some (some (from_be_bytes a b c d), rest)
unfolding read_addr text strip_prefix is_digit
read_addr-fill a b c d rest p q r s =
    rw
      (
        read_number-decimal 256 a _ p refl,
        read_number-decimal 256 b _ q refl,
        read_number-decimal 256 c _ r refl,
        read_number-decimal 256 d _ s refl,
      )
      refl

-- The octets of an address that is parsed, and what the rest of the code makes of them.
parse_addr-bound :
    (val : Bytes) (a b c d : ℕ)
    → parse_addr val ≡ some (a, (b, (c, d)))
    → (a < 256) × (b < 256) × (c < 256) × (d < 256)
unfolding parse_addr
parse_addr-bound val a b c d e = grind (arith, parse_octet-bound)

-- A text that is read back as a value, whatever follows it.
pub record ReadsBack {A : Type 0} (printed : Option Bytes) (read : Bytes → Option (A × Bytes))
    (value : A) : Type 0 where
  pub printed_text : Bytes
  pub prints : printed ≡ some printed_text
  pub reads : (rest : Bytes) → read (printed_text ++ rest) ≡ some (value, rest)

pub format_addr-ReadsBack :
    (s : Option Bytes) (v : Option ℕ)
    → addr_value s ≡ some v
    → ReadsBack (format_addr s) read_addr v
unfolding addr_value format_addr read_addr text strip_prefix
format_addr-ReadsBack none v e =
    let r : none ≡ v = cc in
    record { printed_text = text "None"; prints = refl; reads = λ rest. rw (← r) refl }
format_addr-ReadsBack (some val) v e =
    let ((a, (b, (c, d))), p, q) =
      bind-some (parse_addr val)
        (λ (x : ℕ × (ℕ × (ℕ × ℕ))). some (some (from_be_bytes x.0 x.1.0 x.1.1.0 x.1.1.1))) v e in
    let (la, lb, lc, ld) = parse_addr-bound val a b c d p in
    record {
      printed_text = flatten (addr_pieces a b c d);
      prints = rw p refl;
      reads = λ rest.
          ap read_addr (flatten-fill (addr_pieces a b c d) rest)
          ∙ read_addr-fill a b c d rest la lb lc ld
          ∙ ap (λ (o : Option (Option ℕ)). o >>= λ (x : Option ℕ). some (x, rest)) q;
    }

-- An address in dotted notation is read back as the number of its four bytes, the first the highest.
pub format_addr-dotted :
    (a b c d : ℕ)
    → a < 256
    → b < 256
    → c < 256
    → d < 256
    → ReadsBack (format_addr (some (dotted a b c d))) read_addr (some (from_be_bytes a b c d))
unfolding addr_value
format_addr-dotted a b c d la lb lc ld =
    format_addr-ReadsBack (some (dotted a b c d)) _
      (rw (parse_addr-dotted a b c d la lb lc ld) refl)
