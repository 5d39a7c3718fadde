-- ===== src/Build/Compiled.antt =====
-- The program that the generated file gives: `main` of build.rs against the settings that the
-- rest of the code is compiled with, a `Config` of ginit.Config.
use ginit.Base.{
  ℕ, ◌≤◌, ◌≡◌, refl, true, false, Bytes, List, [], ◌∷◌, none, some, text, length, map, arith,
}
use ginit.Config
use ginit.Config.{Mount, NetInterface, select, mount_each, mount_early, mount_late}
use ginit.Build.Profile.{Entry, get, get_profile_env}
use ginit.Build.Settings.{Host, Config, read}
use ginit.Build.Libc.{Passwd, get_from_username, getgrouplist}
use ginit.Build.Env.{sway_env, xdg_runtime_dir}
use ginit.Build.Format.{net_interfaces_str}
use ginit.Build.Script.{Written, inputs, write_file, main, config_rs, out_cfg_file}
use ginit.Build.Functions.{i32, type_of_ret, run_body}
use ginit.Build.Functions.Statements.{statements}
use ginit.Build.Functions.Meaning.{run_body-statements}
use ginit.Build.Generated.{Program, type_check, read_config_rs}
use ginit.Build.Generated.Lists.{entry_text}
use ginit.Build.Generated.Interfaces.{
  IndexesBelow, ReadsInterfaces, interfaces_value, interfaces_value-ReadsInterfaces,
}
use ginit.Build.Generated.File.{
  PlainSettings, described, read_source-config_rs, type_of_ret-statements,
}

-- What the script finds on a host where nothing fails.
pub record Found (host : Host) : Type 0 where
  pub profile_env : List Entry
  pub system_path : Bytes
  pub cfg : Config
  pub passwd : Passwd
  pub groups : List ℕ
  pub out_dir : Bytes
  pub found_env : get_profile_env host.profile_env ≡ some profile_env
  pub found_path : get (text "ROOTPATH") profile_env ≡ some system_path
  pub found_cfg : read host ≡ some cfg
  pub found_passwd : get_from_username host cfg.ui.user ≡ some passwd
  pub found_groups : getgrouplist host cfg.ui.user passwd.gid ≡ some groups
  pub found_dir : host.out_dir ≡ some out_dir
  pub writes : (path contents : Bytes) → host.write path contents ≡ true

abbrev pub found_sway_env : {host : Host} → Found host → List Entry
found_sway_env {host} f = sway_env (host.iterate f.profile_env) (host.iterate f.cfg.ui.env) f.passwd

-- The settings as the rest of the code has them.
abbrev pub compiled_config : {host : Host} → Found host → List NetInterface → Config.Config
compiled_config f interfaces = record {
  net_interfaces = interfaces;
  user_home = f.passwd.dir;
  user_uid = f.passwd.uid;
  user_gid = f.passwd.gid;
  user_groups = f.groups;
  sway_envp = map entry_text (found_sway_env f);
  xdg_runtime_dir = xdg_runtime_dir f.passwd;
  mounts = f.cfg.mounts;
}

-- The constants of a program and what its two functions do are those of the settings.
pub record Describes (p : Program) (c : Config.Config) : Type 0 where
  pub net_interfaces : p.net_interfaces ≡ c.net_interfaces
  pub user_home : p.user_home ≡ c.user_home
  pub user_uid : p.user_uid ≡ c.user_uid
  pub user_gid : p.user_gid ≡ c.user_gid
  pub user_groups : p.user_groups ≡ c.user_groups
  pub sway_envp : p.sway_envp ≡ c.sway_envp
  pub xdg_runtime_dir : p.xdg_runtime_dir ≡ c.xdg_runtime_dir
  pub runs_early : run_body p.mount_early.body ≡ mount_early c
  pub runs_late : run_body p.mount_late.body ≡ mount_late c

some_type :
    (mounts : List Mount) → 1 ≤ length mounts → type_of_ret none (statements mounts) ≡ some i32
some_type [] l = absurd (omega arith)
some_type (m ∷ mounts) l = type_of_ret-statements m mounts

-- The settings that the compiler reads as they are, with a mount for each of the two functions.
pub record Readable {host : Host} (f : Found host) (interfaces : List NetInterface) : Type 0 where
  pub indexes : IndexesBelow f.cfg.net.interfaces
  pub addresses : interfaces_value f.cfg.net.interfaces ≡ some interfaces
  pub plain :
      PlainSettings f.system_path f.passwd f.groups
        (found_sway_env f)
        (select true f.cfg.mounts)
        (select false f.cfg.mounts)
  pub some_early : 1 ≤ length (select true f.cfg.mounts)
  pub some_late : 1 ≤ length (select false f.cfg.mounts)

-- A host's file, and the program in it.
pub record Compiles (host : Host) (c : Config.Config) : Type 0 where
  pub file : Written
  pub p : Program
  pub writes_file : main host ≡ some file
  pub compiles : read_config_rs file.contents ≡ some p
  pub describes : Describes p c

abbrev found_file : {host : Host} → Found host → Bytes → Written
found_file f interfaces_text = record {
  path = out_cfg_file f.out_dir;
  contents =
      config_rs f.system_path interfaces_text f.passwd f.groups (found_sway_env f) f.cfg.mounts;
}

main-found_file :
    (host : Host) (f : Found host) (interfaces_text : Bytes)
    → net_interfaces_str f.cfg.net.interfaces ≡ some interfaces_text
    → main host ≡ some (found_file f interfaces_text)
unfolding main inputs write_file
main-found_file host f interfaces_text e =
    rw
      (
        f.found_env,
        f.found_path,
        f.found_cfg,
        e,
        f.found_passwd,
        f.found_groups,
        f.found_dir,
        f.writes (out_cfg_file f.out_dir) _,
      )
      refl

abbrev found_program : {host : Host} → Found host → List NetInterface → Program
found_program f interfaces =
    described f.system_path interfaces f.passwd f.groups (found_sway_env f) f.cfg.mounts

found_program-compiles :
    (host : Host) (f : Found host) (interfaces : List NetInterface)
    → Readable f interfaces
    → (r : ReadsInterfaces f.cfg.net.interfaces interfaces)
    → read_config_rs (found_file f r.printed_text).contents ≡ some (found_program f interfaces)
unfolding read_config_rs type_check
found_program-compiles host f interfaces q r =
    rw
      (
        read_source-config_rs f.system_path f.cfg.net.interfaces interfaces f.passwd f.groups
            (found_sway_env f) f.cfg.mounts r q.plain,
        some_type (select true f.cfg.mounts) q.some_early,
        some_type (select false f.cfg.mounts) q.some_late,
      )
      refl

found_program-Describes :
    (host : Host) (f : Found host) (interfaces : List NetInterface)
    → Describes (found_program f interfaces) (compiled_config f interfaces)
unfolding mount_early mount_late
found_program-Describes host f interfaces = record {
  net_interfaces = refl;
  user_home = refl;
  user_uid = refl;
  user_gid = refl;
  user_groups = refl;
  sway_envp = refl;
  xdg_runtime_dir = refl;
  runs_early = run_body-statements (select true f.cfg.mounts);
  runs_late = run_body-statements (select false f.cfg.mounts);
}

-- On a host where the script finds what it looks for, and where the strings of the settings are
-- plain, the numbers fit into their types, the addresses are valid, and there is a mount for each
-- of the two functions, the script writes a file that compiles; the program's constants are those
-- of the settings, and its functions mount what the settings say.
pub main-Compiles :
    (host : Host) (f : Found host) (interfaces : List NetInterface)
    → Readable f interfaces
    → Compiles host (compiled_config f interfaces)
main-Compiles host f interfaces r =
    let texts =
      interfaces_value-ReadsInterfaces f.cfg.net.interfaces interfaces r.indexes r.addresses in
    record {
      file = found_file f texts.printed_text;
      p = found_program f interfaces;
      writes_file = main-found_file host f texts.printed_text texts.prints;
      compiles = found_program-compiles host f interfaces r texts;
      describes = found_program-Describes host f interfaces;
    }
