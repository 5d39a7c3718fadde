-- ===== src/Tests/Strings.antt =====
-- The strings of the build script: quotes, addresses and byte strings.
use ginit.Base.{◌≡◌, refl, true, ◌∷◌, ◌++◌, none, some, text, arith}
use ginit.Net.Encode.{from_be_bytes}
use ginit.Build.Unquote.{unquote_round, unquote_from, unquote}
use ginit.Build.Unquote.Shell.{shell_unquote, unquote-shell_unquote}
use ginit.Build.Unquote.Quoting.{escape, unquote-escape}
use ginit.Build.Addr.{format_addr}
use ginit.Build.Addr.Dotted.{dotted}
use ginit.Build.Format.{c_literal}
use ginit.Build.Reader.{read_c_literal}
use ginit.Build.Reader.Literals.{all_plain}
use ginit.Build.Reader.Literals.Escapes.{read_c_literal-quote}
use ginit.Build.Generated.{read_addr}
use ginit.Build.Generated.Addresses.{ReadsBack, format_addr-dotted}

unquote-shell_unquote_example : unquote (text "'a b'\"c\"d") ≡ shell_unquote (text "'a b'\"c\"d")
unfolding text
unquote-shell_unquote_example =
    unquote-shell_unquote (text "'a b'\"c\"d")
      (refl, (refl, (refl, (refl, (refl, (refl, (refl, (refl, (refl, tt)))))))))
      (refl, (refl, (refl, (refl, (refl, (refl, (refl, (refl, (refl, tt)))))))))

unquote-escape_example : unquote (escape (text "a'b\\")) ≡ some (text "a'b\\")
unquote-escape_example = unquote-escape (text "a'b\\")

format_addr-dotted_example :
    ReadsBack
      (format_addr (some (dotted 192 168 1 26)))
      read_addr
      (some (from_be_bytes 192 168 1 26))
format_addr-dotted_example =
    format_addr-dotted 192 168 1 26 (omega arith) (omega arith) (omega arith) (omega arith)

sub_plain : all_plain (text "sub") ≡ true
unfolding all_plain text
sub_plain = refl

read_c_literal-quote_example :
    read_c_literal (c_literal (text "sub" ++ b'"' ∷ text "vol") ++ text ", 0);") ≡ none
read_c_literal-quote_example =
    read_c_literal-quote (text "sub") (text "vol") (text ", 0);") sub_plain

-- The example of the comment above `unquote`, and what a shell makes of it.
unquote_comment :
    (unquote (text "he'llo' \"wo\\\"l'\"d") ≡ some (text "hello wo\"l'd"))
    × (shell_unquote (text "he'llo' \"wo\\\"l'\"d") ≡ some (text "hello wo\"l'd"))
unfolding unquote unquote_from unquote_round shell_unquote text
unquote_comment = (refl, refl)
