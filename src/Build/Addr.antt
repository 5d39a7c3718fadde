-- ===== src/Build/Addr.antt =====
-- `format_addr` of build.rs, and the parser of `Ipv4Addr` that it calls.
pub mod Dotted
use ginit.Base.{
  ℕ, leb, ◌==◌, Bool, true, false, not, ◌&&◌, ◌||◌, Bytes, List, [], ◌∷◌, Option, none, some,
  if◌then◌else◌, text, flatten, length,
}
use ginit.Linux.Console.{decimal}
use ginit.Linux.Decimal.{digits_value}
use ginit.Build.Str.{◌>>=◌, split_once}

unfoldable pub is_digit : ℕ → Bool
is_digit b = leb b'0' b && leb b b'9'

unfoldable pub all_digits : Bytes → Bool
unfolding is_digit
all_digits [] = true
all_digits (b ∷ bs) = is_digit b && all_digits bs

-- A number of an address has one to three digits, no zero in front of others, and is a `u8`.
unfoldable pub parse_octet : Bytes → Option ℕ
unfolding all_digits digits_value
parse_octet [] = none
parse_octet (d ∷ ds) =
    let digits = d ∷ ds in
    if all_digits digits
      && (leb (length digits) 3
          && (not (d == b'0' && leb 2 (length digits)) && leb (digits_value 0 digits) 255))
    then some (digits_value 0 digits)
    else none

-- The `octets` of `val.parse::<Ipv4Addr>().unwrap()`.
unfoldable pub parse_addr : Bytes → Option (ℕ × (ℕ × (ℕ × ℕ)))
parse_addr val = do
  (first, s) ← split_once b'.' val
  (second, t) ← split_once b'.' s
  (third, fourth) ← split_once b'.' t
  a ← parse_octet first
  b ← parse_octet second
  c ← parse_octet third
  d ← parse_octet fourth
  some (a, (b, (c, d)))

abbrev pub addr_pieces : ℕ → ℕ → ℕ → ℕ → List Bytes
addr_pieces a b c d =
    text "Some(u32::from_be_bytes(["
    ∷ decimal a
    ∷ text ", "
    ∷ decimal b
    ∷ text ", "
    ∷ decimal c
    ∷ text ", "
    ∷ decimal d
    ∷ text "]))"
    ∷ []

unfoldable pub format_addr : Option Bytes → Option Bytes
format_addr none = some (text "None")
format_addr (some val) = do (a, (b, (c, d))) ← parse_addr val; some (flatten (addr_pieces a b c d))
