-- ===== src/Build/Script.antt =====
-- `main` of build.rs: the generated file and where it is written.
use ginit.Base.{
  ℕ, true, false, ◌==◌, Bytes, List, [], ◌∷◌, ◌++◌, Option, none, some, if◌then◌else◌, text,
  flatten,
}
use ginit.Linux.Console.{decimal}
use ginit.Config.{Mount, select}
use ginit.Build.Str.{◌>>=◌}
use ginit.Build.Profile.{Entry, get, get_profile_env}
use ginit.Build.Settings.{Host, Config, read}
use ginit.Build.Libc.{Passwd, get_from_username, getgrouplist}
use ginit.Build.Env.{sway_env, xdg_runtime_dir}
use ginit.Build.Format.{
  c_literal, format_mount_function, net_interfaces_str, user_groups_str, sway_envp_str,
}

-- The file, of the texts that `main` has formatted before it.
abbrev pub file_pieces :
    (system_path net_interfaces : Bytes)
    → Passwd
    → List ℕ
    → List Entry
    → (early late : Bytes) → List Bytes
file_pieces system_path net_interfaces passwd groups env early late =
    text "// This file was generated by the `build.rs` script. You should edit the\n"
    ∷ text "// `config.toml` file instead of editing this file directly.\n\n"
    ∷ text "pub const SYSTEM_PATH: *const u8 = "
    ∷ c_literal (text "PATH=" ++ system_path)
    ∷ text ";\n\npub const NET_INTERFACES: &[NetInterface] = &[\n"
    ∷ net_interfaces
    ∷ text "];\n\npub const USER_HOME: *const u8 = "
    ∷ c_literal passwd.dir
    ∷ text ";\npub const USER_UID: u32 = "
    ∷ decimal passwd.uid
    ∷ text ";\npub const USER_GID: u32 = "
    ∷ decimal passwd.gid
    ∷ text ";\npub const USER_GROUPS: &[u32] = &["
    ∷ user_groups_str groups
    ∷ text "];\n\npub const SWAY_ENVP: *const *const u8 = &[\n"
    ∷ sway_envp_str env
    ∷ text "    ptr::null(),\n] as *const *const u8;\n\npub const XDG_RUNTIME_DIR: *const u8 = "
    ∷ c_literal (xdg_runtime_dir passwd)
    ∷ text ";\n\n"
    ∷ early
    ∷ text "\n\n"
    ∷ late
    ∷ text "\n"
    ∷ []

unfoldable pub config_rs :
    (system_path net_interfaces : Bytes) → Passwd → List ℕ → List Entry → List Mount → Bytes
config_rs system_path net_interfaces passwd groups env mounts = flatten (
    file_pieces system_path net_interfaces passwd groups env
      (format_mount_function (text "mount_early") (select true mounts))
      (format_mount_function (text "mount_late") (select false mounts)))

-- `Path::new(&out_dir).join("config.rs")`: a separator is put where there is none.
unfoldable pub out_cfg_file : Bytes → Bytes
out_cfg_file [] = text "config.rs"
out_cfg_file (c ∷ []) = if c == b'/' then c ∷ text "config.rs" else c ∷ text "/config.rs"
out_cfg_file (c ∷ d ∷ dir) = c ∷ out_cfg_file (d ∷ dir)

pub record Written : Type 0 where
  pub path : Bytes
  pub contents : Bytes

-- What `main` has looked up and formatted before it sorts the environment.
pub record Inputs : Type 0 where
  pub profile_env : List Entry
  pub system_path : Bytes
  pub cfg : Config
  pub net_interfaces : Bytes
  pub passwd : Passwd
  pub user_groups : List ℕ

unfoldable pub inputs : Host → Option Inputs
inputs host = do
  profile_env ← get_profile_env host.profile_env
  system_path ← get (text "ROOTPATH") profile_env
  cfg ← read host
  net_interfaces ← net_interfaces_str cfg.net.interfaces
  passwd ← get_from_username host cfg.ui.user
  user_groups ← getgrouplist host cfg.ui.user passwd.gid
  some (record {
    profile_env = profile_env;
    system_path = system_path;
    cfg = cfg;
    net_interfaces = net_interfaces;
    passwd = passwd;
    user_groups = user_groups;
  })

-- The environment and the file.
unfoldable pub write_file : Host → Inputs → Option Written
write_file host it = do
  let env = sway_env (host.iterate it.profile_env) (host.iterate it.cfg.ui.env) it.passwd
  dir ← host.out_dir
  let file : Written = record {
    path = out_cfg_file dir;
    contents =
        config_rs it.system_path it.net_interfaces it.passwd it.user_groups env it.cfg.mounts;
  }
  if host.write file.path file.contents then some file else none

unfoldable pub main : Host → Option Written
unfolding inputs write_file
main host = do it ← inputs host; write_file host it
