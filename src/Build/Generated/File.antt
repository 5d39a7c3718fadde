-- ===== src/Build/Generated/File.antt =====
-- The generated config.rs: the compiler reads it as the program that the settings describe.
use ginit.Base.{
  ℕ, ◌<◌, ◌^◌, ◌≡◌, ◌↔◌, ◌∷◌, refl, sym, ap, ◌∙◌, true, false, Bytes, List, [], ◌++◌, append-nil,
  Option, none, some, text, flatten, length, length-append, map, arith,
}
use ginit.Config.{Mount, NetInterface, select}
use ginit.Build.Str.{strip_prefix}
use ginit.Build.Addr.{is_digit}
use ginit.Build.Profile.{Entry}
use ginit.Build.Settings.{NetInterfaceConfig}
use ginit.Build.Libc.{Passwd}
use ginit.Build.Env.{xdg_runtime_dir}
use ginit.Build.Format.{format_mount_function}
use ginit.Build.Script.{file_pieces, config_rs}
use ginit.Build.Reader.Literals.{fill, flatten-fill, all_plain, read_c_literal-c_literal}
use ginit.Build.Reader.Numbers.{read_number-decimal}
use ginit.Build.Functions.{Statement, Function, i32, type_of_ret}
use ginit.Build.Functions.Statements.{
  PlainMounts, statements, with_mkdir, mount_of, untyped, read_function-format_mount_function,
}
use ginit.Build.Generated.{read_until, read_interface, Program, read_source}
use ginit.Build.Generated.Lists.{
  PlainEntries, entry_text, read_env, AllBelow, read_array-user_groups_str,
}
use ginit.Build.Generated.Interfaces.{ReadsInterfaces, interfaces_end}

-- What the texts of the settings need for the compiler to read them as they are.
pub record PlainSettings (system_path : Bytes) (passwd : Passwd) (groups : List ℕ)
    (env : List Entry) (early late : List Mount) : Type 0 where
  pub path_plain : all_plain (text "PATH=" ++ system_path) ≡ true
  pub home_plain : all_plain passwd.dir ≡ true
  pub runtime_plain : all_plain (xdg_runtime_dir passwd) ≡ true
  pub uid_below : passwd.uid < 2 ^ 32
  pub gid_below : passwd.gid < 2 ^ 32
  pub groups_below : AllBelow (2 ^ 32) groups
  pub env_plain : PlainEntries env
  pub early_plain : PlainMounts early
  pub late_plain : PlainMounts late

abbrev pub program :
    Bytes → List NetInterface → Passwd → List ℕ → List Entry → Function → Function → Program
program system_path interfaces passwd groups env early late = record {
  system_path = text "PATH=" ++ system_path;
  net_interfaces = interfaces;
  user_home = passwd.dir;
  user_uid = passwd.uid;
  user_gid = passwd.gid;
  user_groups = groups;
  sway_envp = map entry_text env;
  xdg_runtime_dir = xdg_runtime_dir passwd;
  mount_early = early;
  mount_late = late;
}

read_file :
    (system_path interfaces_text : Bytes) (interfaces : List NetInterface) (passwd : Passwd)
    (groups : List ℕ) (env : List Entry) (early late : List Mount)
    → PlainSettings system_path passwd groups env early late
    → ((rest : Bytes)
        → (let s = interfaces_text ++ (interfaces_end ++ rest) in
            read_until interfaces_end read_interface (length s) s ≡ some (interfaces, rest)))
    → read_source (
        fill
          (file_pieces system_path interfaces_text passwd groups env
            (format_mount_function (text "mount_early") early)
            (format_mount_function (text "mount_late") late))
          [])
      ≡ some (
          program system_path interfaces passwd groups env
            (untyped (statements early))
            (untyped (statements late)))
unfolding read_source text strip_prefix is_digit
read_file system_path interfaces_text interfaces passwd groups env early late p ri =
    rw
      (
        read_c_literal-c_literal (text "PATH=" ++ system_path) _ p.path_plain,
        ri _,
        read_c_literal-c_literal passwd.dir _ p.home_plain,
        read_number-decimal _ passwd.uid _ p.uid_below refl,
        read_number-decimal _ passwd.gid _ p.gid_below refl,
        read_array-user_groups_str groups _ p.groups_below,
        read_env env _ p.env_plain,
        read_c_literal-c_literal (xdg_runtime_dir passwd) _ p.runtime_plain,
        read_function-format_mount_function (text "mount_early") early _ p.early_plain,
        read_function-format_mount_function (text "mount_late") late _ p.late_plain,
      )
      refl

interfaces-length :
    (interfaces : List NetInterfaceConfig) (values : List NetInterface)
    (r : ReadsInterfaces interfaces values) (rest : Bytes)
    → (let s = r.printed_text ++ (interfaces_end ++ rest) in
        read_until interfaces_end read_interface (length s) s ≡ some (values, rest))
unfolding text
interfaces-length interfaces values r rest =
    r.reads _ rest
      (rw (length-append r.printed_text (interfaces_end ++ rest)) (omega (arith, r.long_enough)))

-- The program that the settings describe.
abbrev pub described :
    Bytes → List NetInterface → Passwd → List ℕ → List Entry → List Mount → Program
described system_path interfaces passwd groups env mounts =
    program system_path interfaces passwd groups env (untyped (statements (select true mounts)))
      (untyped (statements (select false mounts)))

-- The file of settings whose strings are plain is read back as the program with these settings.
pub read_source-config_rs :
    (system_path : Bytes) (interfaces : List NetInterfaceConfig) (values : List NetInterface)
    (passwd : Passwd) (groups : List ℕ) (env : List Entry) (mounts : List Mount)
    (r : ReadsInterfaces interfaces values)
    → PlainSettings system_path passwd groups env (select true mounts) (select false mounts)
    → read_source (config_rs system_path r.printed_text passwd groups env mounts)
      ≡ some (described system_path values passwd groups env mounts)
unfolding config_rs
read_source-config_rs system_path interfaces values passwd groups env mounts r p =
    let pieces =
      file_pieces system_path r.printed_text passwd groups env
        (format_mount_function (text "mount_early") (select true mounts))
        (format_mount_function (text "mount_late") (select false mounts)) in
    ap read_source (sym (append-nil (flatten pieces)) ∙ flatten-fill pieces [])
    ∙ read_file system_path r.printed_text values passwd groups env (select true mounts)
        (select false mounts) p (interfaces-length interfaces values r)

type_of_ret-i32 : (body : List Statement) → type_of_ret (some i32) body ≡ some i32
unfolding type_of_ret
type_of_ret-i32 [] = refl
type_of_ret-i32 (statement ∷ body) = type_of_ret-i32 body

-- The first assignment tells the type.
pub type_of_ret-statements :
    (m : Mount) (mounts : List Mount) → type_of_ret none (statements (m ∷ mounts)) ≡ some i32
unfolding type_of_ret statements
type_of_ret-statements m mounts = go m.mkdir_mode
  where
    go :
        (mode : Option ℕ)
        → type_of_ret none (with_mkdir m.dir mode (mount_of m ∷ statements mounts)) ≡ some i32
    go none = type_of_ret-i32 (statements mounts)
    go (some x) = type_of_ret-i32 (statements mounts)

type_of_ret-none :
    (mounts : List Mount) → (type_of_ret none (statements mounts) ≡ none) ↔ (mounts ≡ [])
unfolding type_of_ret statements
type_of_ret-none [] = ((λ e. refl), λ e. refl)
type_of_ret-none (m ∷ mounts) =
    let typed = type_of_ret-statements m mounts in ((λ e. absurd cc), λ e. absurd cc)

-- The generated file is a source text, whatever the mounts are; and Rust finds no type for the
-- variable of its first function if and only if there is no early mount, and none for that of its
-- second one if and only if there is no late mount.
pub read_source-untyped :
    (system_path : Bytes) (interfaces : List NetInterfaceConfig) (values : List NetInterface)
    (passwd : Passwd) (groups : List ℕ) (env : List Entry) (mounts : List Mount)
    (r : ReadsInterfaces interfaces values)
    → PlainSettings system_path passwd groups env (select true mounts) (select false mounts)
    → (p : Program) × (read_source (config_rs system_path r.printed_text passwd groups env mounts)
        ≡ some p)
      × ((type_of_ret p.mount_early.declared p.mount_early.body ≡ none) ↔ (select true mounts ≡ []))
      × ((type_of_ret p.mount_late.declared p.mount_late.body ≡ none) ↔ (select false mounts ≡ []))
read_source-untyped path interfaces values passwd groups env mounts r p = (
  described path values passwd groups env mounts,
  read_source-config_rs path interfaces values passwd groups env mounts r p,
  type_of_ret-none (select true mounts),
  type_of_ret-none (select false mounts),
)
