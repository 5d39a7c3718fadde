-- ===== src/Build/Functions/Statements.antt =====
-- `format_mount_function` of build.rs and the reader of its statements.
use ginit.Base.{
  ℕ, zero, suc, ◌+◌, ◌<◌, ◌≤◌, ◌^◌, ◌≡◌, refl, true, Bytes, List, [], ◌∷◌, ◌++◌, append_assoc,
  Option, none, some, text, flatten, length, length-append, drop, ap, arith,
}
use ginit.Config.{Mount}
use ginit.Build.Str.{◌>>=◌, strip_prefix}
use ginit.Build.Addr.{is_digit}
use ginit.Build.Format.{
  c_literal, return_error, mkdir_pieces, mkdir_text, data_text, mount_pieces, mount_text,
  mounts_text, function_pieces, format_mount_function,
}
use ginit.Build.Reader.Literals.{
  fill, flatten-fill, all_plain, strip_prefix-append, read_c_literal-c_literal,
}
use ginit.Build.Reader.Numbers.{read_number-decimal}
use ginit.Build.Functions.{
  Statement, mkdir, mount, read_options, read_mkdir, read_mount, read_statement, read_statements,
  Function, read_declaration, read_function,
}

abbrev pub OptionPlain : Option Bytes → Type 0
OptionPlain none = Unit
OptionPlain (some s) = all_plain s ≡ true

abbrev pub OptionBelow : ℕ → Option ℕ → Type 0
OptionBelow bound none = Unit
OptionBelow bound (some n) = n < bound

-- A mount with the strings that a byte string holds as they are.
pub record PlainMount (m : Mount) : Type 0 where
  pub dir_plain : all_plain m.dir ≡ true
  pub device_plain : all_plain m.device ≡ true
  pub fs_type_plain : all_plain m.fs_type ≡ true
  pub flags_below : m.flags < 2 ^ 64
  pub options_plain : OptionPlain m.options
  pub mode_below : OptionBelow (2 ^ 32) m.mkdir_mode

abbrev pub PlainMounts : List Mount → Type 0
PlainMounts [] = Unit
PlainMounts (m ∷ mounts) = PlainMount m × PlainMounts mounts

abbrev pub with_mkdir : Bytes → Option ℕ → List Statement → List Statement
with_mkdir dir none body = body
with_mkdir dir (some mode) body = mkdir dir mode ∷ body

-- The statements for the mounts of a list.
unfoldable pub statements : List Mount → List Statement
statements [] = []
statements (m ∷ mounts) =
    with_mkdir m.dir m.mkdir_mode
      (mount m.device m.dir m.fs_type m.flags m.options ∷ statements mounts)

read_options-data_text :
    (o : Option Bytes) (rest : Bytes)
    → OptionPlain o
    → read_options (data_text o ++ rest) ≡ some (o, rest)
unfolding read_options data_text c_literal text strip_prefix
read_options-data_text none rest h = refl
read_options-data_text (some s) rest h =
    ap (λ (o : Option (Bytes × Bytes)). o >>= λ (x : Bytes × Bytes). some (some x.0, x.1))
      (read_c_literal-c_literal s rest h)

mkdir_text-fill :
    (dir : Bytes) (mode : ℕ) (rest : Bytes)
    → mkdir_text dir (some mode) ++ rest ≡ fill (mkdir_pieces dir mode) rest
unfolding mkdir_text
mkdir_text-fill dir mode rest = flatten-fill (mkdir_pieces dir mode) rest

read_statement-mkdir_text :
    (dir : Bytes) (mode : ℕ) (rest : Bytes)
    → all_plain dir ≡ true
    → mode < 2 ^ 32
    → read_statement (mkdir_text dir (some mode) ++ rest) ≡ some (mkdir dir mode, rest)
unfolding read_statement read_mkdir return_error text strip_prefix is_digit
read_statement-mkdir_text dir mode rest h l =
    rw
      (
        mkdir_text-fill dir mode rest,
        read_c_literal-c_literal dir _ h,
        read_number-decimal _ mode _ l refl,
      )
      refl

-- The text for one mount behind that of its directory.
abbrev mount_call_pieces : Mount → List Bytes
mount_call_pieces m = drop 1 (mount_pieces m)

mount_text-fill :
    (m : Mount) (rest : Bytes)
    → mount_text m ++ rest ≡ mkdir_text m.dir m.mkdir_mode ++ fill (mount_call_pieces m) rest
unfolding mount_text
mount_text-fill m rest = flatten-fill (mount_pieces m) rest

read_statement-mount :
    (m : Mount) (rest : Bytes)
    → PlainMount m
    → read_statement (fill (mount_call_pieces m) rest)
      ≡ some (mount m.device m.dir m.fs_type m.flags m.options, rest)
unfolding read_statement read_mount return_error text strip_prefix is_digit
read_statement-mount m rest p =
    rw
      (
        read_c_literal-c_literal m.device _ p.device_plain,
        read_c_literal-c_literal m.dir _ p.dir_plain,
        read_c_literal-c_literal m.fs_type _ p.fs_type_plain,
        read_number-decimal _ m.flags _ p.flags_below refl,
        read_options-data_text m.options _ p.options_plain,
      )
      refl

read_statements-step :
    (fuel : ℕ) (s rest end : Bytes) (first : Statement) (body : List Statement)
    → strip_prefix (text "    }\n") s ≡ none
    → read_statement s ≡ some (first, rest)
    → read_statements fuel rest ≡ some (body, end)
    → read_statements (suc fuel) s ≡ some (first ∷ body, end)
unfolding read_statements strip_prefix text
read_statements-step fuel s rest end first body ends p q = rw (ends, p, q) refl

abbrev pub mount_of : Mount → Statement
mount_of m = mount m.device m.dir m.fs_type m.flags m.options

read_statements-mount :
    (fuel : ℕ) (m : Mount) (mode : Option ℕ) (rest end : Bytes) (body : List Statement)
    → PlainMount m
    → OptionBelow (2 ^ 32) mode
    → length (with_mkdir m.dir mode (mount_of m ∷ body)) < fuel
    → ((f : ℕ) → length body < f → read_statements f rest ≡ some (body, end))
    → read_statements fuel (mkdir_text m.dir mode ++ fill (mount_call_pieces m) rest)
      ≡ some (with_mkdir m.dir mode (mount_of m ∷ body), end)
unfolding mkdir_text text strip_prefix
read_statements-mount zero m none rest end body p b l k = absurd (omega arith)
read_statements-mount (suc f) m none rest end body p b l k =
    read_statements-step f _ rest end _ body refl (read_statement-mount m rest p)
      (k f (omega arith))
read_statements-mount zero m (some mode) rest end body p b l k = absurd (omega arith)
read_statements-mount (suc f) m (some mode) rest end body p b l k =
    read_statements-step f _ _ end _ _ refl (read_statement-mkdir_text m.dir mode _ p.dir_plain b)
      (read_statements-mount f m none rest end body p tt (omega arith) k)

-- Enough fuel for the statements and the end of the block.
pub read_statements-mounts_text :
    (fuel : ℕ) (mounts : List Mount) (rest : Bytes)
    → length (statements mounts) < fuel
    → PlainMounts mounts
    → read_statements fuel (mounts_text mounts ++ (text "    }\n" ++ rest))
      ≡ some (statements mounts, rest)
unfolding read_statements mounts_text statements text strip_prefix
read_statements-mounts_text zero mounts rest l p = absurd (omega arith)
read_statements-mounts_text (suc fuel) [] rest l p = refl
read_statements-mounts_text (suc fuel) (m ∷ mounts) rest l (p, ps) =
    rw (append_assoc (mount_text m) (mounts_text mounts) _, mount_text-fill m _)
      (read_statements-mount (suc fuel) m m.mkdir_mode _ rest (statements mounts) p p.mode_below l
        (λ f h. read_statements-mounts_text f mounts rest h ps))

length-mount_text :
    (m : Mount) (body : List Statement)
    → length (with_mkdir m.dir m.mkdir_mode (mount_of m ∷ body))
      ≤ length (mount_text m) + length body
unfolding mount_text mkdir_text text
length-mount_text m body = go m.mkdir_mode
  where
    go :
        (mode : Option ℕ)
        → length (with_mkdir m.dir mode (mount_of m ∷ body))
          ≤ length (mkdir_text m.dir mode ++ flatten (mount_call_pieces m)) + length body
    go none = omega arith
    go (some mode) = omega arith

length-statements : (mounts : List Mount) → length (statements mounts) ≤ length (mounts_text mounts)
unfolding statements mounts_text
length-statements [] = omega arith
length-statements (m ∷ mounts) =
    rw (length-append (mount_text m) (mounts_text mounts))
      (omega (arith, length-mount_text m (statements mounts), length-statements mounts))

block-read :
    (mounts : List Mount) (rest : Bytes)
    → PlainMounts mounts
    → (let s = mounts_text mounts ++ (text "    }\n    0\n}" ++ rest) in
        read_statements (length s) s ≡ some (statements mounts, text "    0\n}" ++ rest))
unfolding text
block-read mounts rest p =
    read_statements-mounts_text _ mounts (text "    0\n}" ++ rest)
      (rw (length-append (mounts_text mounts) (text "    }\n    0\n}" ++ rest))
        (omega (arith, length-statements mounts)))
      p

-- The function of the statements, with a declaration that tells no type.
abbrev pub untyped : List Statement → Function
untyped body = record { declared = none; body = body }

read_declaration-template :
    (rest : Bytes)
    → read_declaration
        (text "() -> i32 {\n    #[allow(unused)]\n    let mut ret;\n    unsafe {\n" ++ rest)
      ≡ some (none, rest)
unfolding read_declaration text strip_prefix
read_declaration-template rest = refl

-- The function of a list of mounts is read back as the statements for them.
pub read_function-format_mount_function :
    (name : Bytes) (mounts : List Mount) (rest : Bytes)
    → PlainMounts mounts
    → read_function name (format_mount_function name mounts ++ rest)
      ≡ some (untyped (statements mounts), rest)
unfolding read_function format_mount_function
read_function-format_mount_function name mounts rest p =
    rw
      (
        flatten-fill (function_pieces name (mounts_text mounts)) rest,
        strip_prefix-append (text "pub fn ") _,
        strip_prefix-append name _,
        read_declaration-template _,
        block-read mounts rest p,
        strip_prefix-append (text "    0\n}") rest,
      )
      refl
