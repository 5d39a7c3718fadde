-- ===== src/Linux/Console.antt =====
-- src/linux.rs: `Stdout` and `Stderr`, the pieces that `writeln!` hands to them, and the `Drop` of
-- `Fd`; src/main.rs: the panic handler.
use ginit.Base.{
  ℕ, zero, suc, ◌+◌, ◌/◌, ◌%◌, ltb, ℤ, pos, negsuc, is_neg, Bool, true, false, not, Bytes, List, [],
  ◌∷◌, ◌++◌, String, text, Option, none, some, if◌then◌else◌,
}
use ginit.Machine.{Panic, fmt_error, conversion, hung, M, pure, stop, ◌>>=◌, ◌>>◌}
use ginit.Linux.Calls.{write, close, sync}

abbrev pub stdout : ℕ
stdout = 1

abbrev pub stderr : ℕ
stderr = 2

-- `write_str` of `Stdout` and of `Stderr`; the result is `is_ok`.
unfoldable pub write_str : ℕ → Bytes → M Bool
unfolding write
write_str fd s = do ret ← write fd s; pure (not (is_neg ret))

-- `write_fmt` of the standard library: a `write_str` for each piece, up to the first error.
unfoldable pub write_fmt : ℕ → List Bytes → M Bool
unfolding write_str
write_fmt fd [] = pure true
write_fmt fd (s ∷ pieces) = do ok ← write_str fd s; if ok then write_fmt fd pieces else pure false

-- The decimal digits of a number, the fuel one more than their count.
unfoldable pub decimal_from : ℕ → ℕ → Bytes
decimal_from zero n = []
decimal_from (suc fuel) n =
    let higher = decimal_from fuel (n / 10) in
    if ltb n 10 then (b'0' + n) ∷ [] else higher ++ (b'0' + n % 10) ∷ []

unfoldable pub decimal : ℕ → Bytes
unfolding decimal_from
decimal n = decimal_from (suc n) n

-- The pieces of an integer's `Display`: the sign is written by itself.
unfoldable pub display : ℤ → List Bytes
unfolding decimal
display (pos n) = decimal n ∷ []
display (negsuc n) = text "-" ∷ decimal (suc n) ∷ []

-- The pieces of `"...: {value}\n"`.
unfoldable pub with_value : String → ℤ → List Bytes
unfolding display
with_value s value = text s ∷ (display value ++ text "\n" ∷ [])

-- The handler ignores errors of its own message, syncs and loops for ever.
unfoldable pub panic : {A : Type 0} → Panic → M A
unfolding write_fmt sync
panic p m = (do ok ← write_fmt stderr (m.panic_text p ++ text "\n" ∷ []); sync; stop hung) m

-- `writeln!(..).unwrap()`
unfoldable pub writeln : ℕ → List Bytes → M (Unit {0})
unfolding write_fmt panic
writeln fd pieces = do ok ← write_fmt fd pieces; if ok then pure tt else panic fmt_error

-- `if ret < 0 { writeln!(linux::Stderr, "...: {ret}").unwrap(); }`
unfoldable pub warn_if_neg : String → ℤ → M (Unit {0})
unfolding writeln with_value
warn_if_neg s ret = if is_neg ret then writeln stderr (with_value s ret) else pure tt

-- `x.unwrap()` of a checked conversion
abbrev pub unwrap : {A : Type 0} → Option A → M A
unwrap none = panic conversion
unwrap (some a) = pure a

-- The `Drop` of `Fd`.
unfoldable pub drop_fd : ℕ → M (Unit {0})
unfolding close warn_if_neg
drop_fd fd = do ret ← close fd; warn_if_neg "failed to close FD: " ret

-- The code between the creation of an `Fd` and the end of its scope.
unfoldable pub with_fd : {A : Type 0} → ℕ → M A → M A
with_fd fd body = do a ← body; drop_fd fd; pure a
