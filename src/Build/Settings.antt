-- ===== src/Build/Settings.antt =====
-- The structures of build.rs that serde fills, and what the script asks of its surroundings:
-- the files, the parser of TOML and libc's functions are a `Host`.
use ginit.Base.{ℕ, ℤ, Bool, Bytes, List, Option}
use ginit.Config.{Mount}
use ginit.Build.Str.{◌>>=◌, from_utf8}
use ginit.Build.Profile.{Entry}

-- Configuration of a network interface.
pub record NetInterfaceConfig : Type 0 where
  pub index : ℕ
  pub addr : Option Bytes
  pub gateway : Option Bytes
  pub broadcast : Option Bytes

-- Configuration of the network.
pub record NetConfig : Type 0 where
  pub interfaces : List NetInterfaceConfig

-- Configuration of the user interface that starts automatically on startup.
pub record UiConfig : Type 0 where
  pub user : Bytes
  pub env : List Entry

-- Build time configuration of the init system.
pub record Config : Type 0 where
  pub net : NetConfig
  pub ui : UiConfig
  pub mounts : List Mount

-- `libc::passwd`, with the C strings that its pointers lead to.
pub record CPasswd : Type 0 where
  pub pw_name : Bytes
  pub pw_passwd : Bytes
  pub pw_uid : ℕ
  pub pw_gid : ℕ
  pub pw_gecos : Bytes
  pub pw_dir : Bytes
  pub pw_shell : Bytes

-- What a call of `libc::getgrouplist` does: its result, the number it leaves in `*ngroups`, and
-- what it stores in the array.
pub record GroupsReply : Type 0 where
  pub ret : ℤ
  pub num : ℤ
  pub stored : List ℕ

pub record Host : Type 0 where
  -- The files, if they can be read.
  pub profile_env : Option Bytes
  pub config_toml : Option Bytes
  pub toml_from_str : Bytes → Option Config
  -- The memory behind the string with the name of the user, which has no NUL of its own.
  pub behind_user : Bytes
  pub sysconf : ℤ
  -- Of the name and the size of the buffer; `none` is a null pointer.
  pub getpwnam_r : Bytes → ℕ → Option CPasswd
  -- Of the name, the group and `*ngroups`.
  pub getgrouplist : Bytes → ℕ → ℤ → GroupsReply
  -- The order in which a `HashMap` is iterated.
  pub iterate : List Entry → List Entry
  pub out_dir : Option Bytes
  -- `fs::write(path, contents).is_ok()`
  pub write : Bytes → Bytes → Bool

-- `Config::read`
unfoldable pub read : Host → Option Config
read host = do bytes ← host.config_toml; s ← from_utf8 bytes; host.toml_from_str s
