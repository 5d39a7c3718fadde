-- ===== src/Build/Functions.antt =====
-- What the two mount functions of the generated file do: a reader of their statements, and the
-- meaning of these.
pub mod Statements
pub mod Meaning
use ginit.Base.{
  ℕ, zero, suc, ◌^◌, ℤ, pos, is_neg, Bytes, List, [], ◌∷◌, Option, none, some, if◌then◌else◌, text,
  length,
}
use ginit.Machine
use ginit.Machine.{M, pure}
use ginit.Linux.Calls
use ginit.Build.Str.{◌>>=◌, strip_prefix}
use ginit.Build.Reader.{read_c_literal, read_number}

-- The right side of `ret = ...`.
pub data Statement : Type 0 where
  mkdir : (dir : Bytes) (mode : ℕ) → Statement
  mount : (device dir fs_type : Bytes) (flags : ℕ) (options : Option Bytes) → Statement

-- A statement with the test of its result.
abbrev read_end : Statement → Bytes → Option (Statement × Bytes)
read_end statement s = do
  rest ← strip_prefix (text ");\n        if ret < 0 {\n            return ret;\n        }\n") s
  some (statement, rest)

-- `ptr::null()` or a C string.
unfoldable read_options : Bytes → Option (Option Bytes × Bytes)
read_options s = elim (strip_prefix (text "ptr::null()") s) [
  | some rest ↦ some (none, rest)
  | none ↦ do (options, rest) ← read_c_literal s; some (some options, rest)
]

unfoldable read_mkdir : Bytes → Option (Statement × Bytes)
read_mkdir s = do
  (dir, s1) ← read_c_literal s
  s2 ← strip_prefix (text ", ") s1
  (mode, s3) ← read_number (2 ^ 32) s2
  read_end (mkdir dir mode) s3

unfoldable read_mount : Bytes → Option (Statement × Bytes)
unfolding read_options
read_mount s = do
  (device, s1) ← read_c_literal s
  s2 ← strip_prefix (text ", ") s1
  (dir, s3) ← read_c_literal s2
  s4 ← strip_prefix (text ", ") s3
  (fs_type, s5) ← read_c_literal s4
  s6 ← strip_prefix (text ", ") s5
  (flags, s7) ← read_number (2 ^ 64) s6
  s8 ← strip_prefix (text ", ") s7
  (options, s9) ← read_options s8
  read_end (mount device dir fs_type flags options) s9

unfoldable read_statement : Bytes → Option (Statement × Bytes)
unfolding read_mkdir read_mount
read_statement s = do
  call ← strip_prefix (text "        ret = linux::m") s
  elim (strip_prefix (text "kdir(") call) [
    | some args ↦ read_mkdir args
    | none ↦ do args ← strip_prefix (text "ount(") call; read_mount args
  ]

-- The statements of the block, up to its end.
unfoldable read_statements : (fuel : ℕ) → Bytes → Option (List Statement × Bytes)
unfolding read_statement
read_statements zero s = none
read_statements (suc fuel) s = elim (strip_prefix (text "    }\n") s) [
  | some rest ↦ some ([], rest)
  | none ↦ do
    (first, more) ← read_statement s
    (others, rest) ← read_statements fuel more
    some (first ∷ others, rest)
]

-- The types that a declaration of `ret` can have here.
pub data RustType : Type 0 where
  i32 : RustType
  i64 : RustType

-- A function without arguments that returns an `i32`: the type in `let mut ret`, if there is one,
-- and the statements of its block.
pub record Function : Type 0 where
  pub declared : Option RustType
  pub body : List Statement

read_type : Bytes → Option RustType × Bytes
read_type s = elim (strip_prefix (text ": i32") s) [
  | some rest ↦ (some i32, rest)
  | none ↦ elim (strip_prefix (text ": i64") s) [ some rest ↦ (some i64, rest) | none ↦ (none, s) ]
]

-- The signature behind the name, and the declaration of `ret`.
unfoldable read_declaration : Bytes → Option (Option RustType × Bytes)
unfolding read_type
read_declaration s = do
  s1 ← strip_prefix (text "() -> i32 {\n    #[allow(unused)]\n    let mut ret") s
  let (declared, s2) = read_type s1
  rest ← strip_prefix (text ";\n    unsafe {\n") s2
  some (declared, rest)

-- A function, by its name; every statement takes at least one byte.
unfoldable pub read_function : (name : Bytes) → Bytes → Option (Function × Bytes)
unfolding read_statements read_declaration
read_function name s = do
  s1 ← strip_prefix (text "pub fn ") s
  s2 ← strip_prefix name s1
  (declared, s3) ← read_declaration s2
  (body, s4) ← read_statements (length s3) s3
  rest ← strip_prefix (text "    0\n}") s4
  some (record { declared = declared; body = body }, rest)

-- What is known of the type of `ret` behind an assignment of an `i32`, the result of each call;
-- `none` where the two types differ.
abbrev assigned : Option RustType → Option (Option RustType)
assigned none = some (some i32)
assigned (some i32) = some (some i32)
assigned (some i64) = none

-- The type of `ret` as Rust finds it, by its declaration and by its uses; `none` where the types
-- differ or nothing tells the type, and then the function does not compile.
unfoldable pub type_of_ret : Option RustType → List Statement → Option RustType
type_of_ret known [] = known
type_of_ret known (statement ∷ body) = do known' ← assigned known; type_of_ret known' body

-- The call of a statement.
unfoldable pub run_statement : Statement → M ℤ
run_statement (mkdir dir mode) = Calls.mkdir dir mode
run_statement (mount device dir fs_type flags options) =
    Calls.mount device dir fs_type flags options

-- The body of a function: `if ret < 0 { return ret; }` behind every call, and 0 at the end.
unfoldable pub run_body : List Statement → M ℤ
unfolding run_statement
run_body [] = pure (pos 0)
run_body (statement ∷ body) =
    Machine.◌>>=◌ (run_statement statement) (λ ret. if is_neg ret then pure ret else run_body body)
