-- ===== src/Build/Profile.antt =====
-- `get_profile_env` of build.rs. A `HashMap` is a list of its entries, one for each key; where
-- the order of its iteration matters, it is a parameter.
pub mod Lines
use ginit.Base.{Bytes, List, [], ◌∷◌, Option, none, some, if◌then◌else◌, text}
use ginit.Build.Str.{◌>>=◌, from_utf8, lines, strip_prefix, split_once, str_eq}
use ginit.Build.Unquote.{unquote}

abbrev pub Entry : Type 0
Entry = Bytes × Bytes

-- `map.insert(key, val)`
unfoldable pub insert : Bytes → Bytes → List Entry → List Entry
insert key val [] = (key, val) ∷ []
insert key val ((k, v) ∷ env) =
    let rest = insert key val env in if str_eq key k then (k, val) ∷ env else (k, v) ∷ rest

-- `map.get(key)`
unfoldable pub get : Bytes → List Entry → Option Bytes
get key [] = none
get key ((k, v) ∷ env) = if str_eq key k then some v else get key env

-- The closure of `filter_map`: the outer `none` is a panic, the inner one a line that is left out.
unfoldable pub profile_entry : Bytes → Option (Option Entry)
profile_entry l = elim (strip_prefix (text "export ") l) [
  | none ↦ some none
  | some rest ↦ elim (split_once b'=' rest) [
    | none ↦ some none
    | some (key, quoted) ↦ do val ← unquote quoted; some (some (key, val))
  ]
]

-- `collect`, in the order of the lines.
unfoldable pub collect : List Entry → List Bytes → Option (List Entry)
collect env [] = some env
collect env (l ∷ ls) = do
  entry ← profile_entry l
  elim entry [ none ↦ collect env ls | some (key, val) ↦ collect (insert key val env) ls ]

-- The bytes of /etc/profile.env, if it can be read.
unfoldable pub get_profile_env : Option Bytes → Option (List Entry)
get_profile_env file = do bytes ← file; s ← from_utf8 bytes; collect [] (lines s)
