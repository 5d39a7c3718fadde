-- ===== src/Tests/Host.antt =====
-- A small host for the build script, and what the script finds on it.
use ginit.Base.{
  zero, suc, ◌≤◌, ◌≡◌, refl, ℤ, pos, negsuc, true, false, List, [], ◌∷◌, none, some, text, length,
  arith,
}
use ginit.Linux.Console.{decimal, decimal_from}
use ginit.Linux.Decimal.{digits_value}
use ginit.Net.Encode.{from_be_bytes}
use ginit.Config.{Mount, NetInterface, select}
use ginit.Build.Str.{is_utf8, from_utf8, lines, strip_prefix, split_once, str_eq, str_le}
use ginit.Build.Unquote.{unquote_round, unquote_from, unquote}
use ginit.Build.Addr.{all_digits, is_digit, parse_octet, parse_addr}
use ginit.Build.Profile.{Entry, insert, get, profile_entry, collect, get_profile_env}
use ginit.Build.Settings.{Host, Config, CPasswd, GroupsReply, read}
use ginit.Build.Libc.{libc_check_error, name_pointer, getgrouplist, Passwd, get_from_username}
use ginit.Build.Env.{
  entry_le, insert_sorted, sort_unstable, without_rootpath, xdg_runtime_dir, pushed_env, sway_env,
}
use ginit.Build.Reader.Literals.{all_plain}
use ginit.Build.Generated.Addresses.{addr_value}
use ginit.Build.Generated.Interfaces.{interface_value, interfaces_value}
use ginit.Build.Generated.File.{PlainSettings}
use ginit.Build.Compiled.{Found, Readable}

abbrev pub dev : Mount
dev = record {
  dir = text "/dev";
  device = text "none";
  fs_type = text "devtmpfs";
  flags = 1034;
  options = none;
  mkdir_mode = none;
  early = true;
}

abbrev pub shm : Mount
shm = record {
  dir = text "/dev/shm";
  device = text "none";
  fs_type = text "tmpfs";
  flags = 1038;
  options = some (text "a=b");
  mkdir_mode = some 484;
  early = false;
}

abbrev pub settings : Config
settings = record {
  net = record {
    interfaces =
        record { index = 1; addr = none; gateway = none; broadcast = some (text "192.168.1.255") }
        ∷ [];
  };
  ui = record { user = text "greg"; env = (text "EDITOR", text "nvim") ∷ [] };
  mounts = dev ∷ shm ∷ [];
}

abbrev pub greg_entry : CPasswd
greg_entry = record {
  pw_name = text "greg";
  pw_passwd = text "x";
  pw_uid = 1000;
  pw_gid = 1001;
  pw_gecos = [];
  pw_dir = text "/home/greg";
  pw_shell = text "/bin/sh";
}

abbrev pub groups_reply : ℤ → GroupsReply
groups_reply (pos zero) = record { ret = negsuc 0; num = pos 2; stored = [] }
groups_reply (pos (suc zero)) = record { ret = negsuc 0; num = pos 2; stored = 1001 ∷ [] }
groups_reply n = record { ret = pos 2; num = pos 2; stored = 1001 ∷ 27 ∷ [] }

abbrev pub host : Host
host = record {
  profile_env =
      some (text "# a comment\nexport EDITOR='/bin/nano'\nexport ROOTPATH=\"/sbin:/bin\"\n");
  config_toml = some [];
  toml_from_str = λ s. some settings;
  behind_user = 0 ∷ [];
  sysconf = pos 1024;
  getpwnam_r = λ name size. some greg_entry;
  getgrouplist = λ name group num. groups_reply num;
  iterate = λ env. env;
  out_dir = some (text "/out");
  write = λ path contents. true;
}

abbrev pub profile : List Entry
profile = (text "EDITOR", text "/bin/nano") ∷ (text "ROOTPATH", text "/sbin:/bin") ∷ []

abbrev pub greg : Passwd
greg = record {
  name = text "greg";
  passwd = text "x";
  uid = 1000;
  gid = 1001;
  gecos = [];
  dir = text "/home/greg";
  shell = text "/bin/sh";
}

pub host_profile : get_profile_env host.profile_env ≡ some profile
unfolding get_profile_env from_utf8 is_utf8 lines collect profile_entry strip_prefix split_once
    unquote unquote_from unquote_round insert str_eq text
host_profile = refl

pub host_path : get (text "ROOTPATH") profile ≡ some (text "/sbin:/bin")
unfolding get str_eq text
host_path = refl

pub read-host : read host ≡ some settings
unfolding read from_utf8 is_utf8
read-host = refl

pub host_passwd : get_from_username host (text "greg") ≡ some greg
unfolding get_from_username from_utf8 is_utf8 name_pointer text
host_passwd = refl

pub host_groups : getgrouplist host (text "greg") 1001 ≡ some (1001 ∷ 27 ∷ [])
unfolding getgrouplist libc_check_error
host_groups = refl

abbrev pub found : Found host
found = record {
  profile_env = profile;
  system_path = text "/sbin:/bin";
  cfg = settings;
  passwd = greg;
  groups = 1001 ∷ 27 ∷ [];
  out_dir = text "/out";
  found_env = host_profile;
  found_path = host_path;
  found_cfg = read-host;
  found_passwd = host_passwd;
  found_groups = host_groups;
  found_dir = refl;
  writes = λ path contents. refl;
}

abbrev pub interfaces : List NetInterface
interfaces =
    record {
      index = 1;
      addr = none;
      gateway = none;
      broadcast = some (from_be_bytes 192 168 1 255);
    }
    ∷ []

pub host_plain :
    PlainSettings
      (text "/sbin:/bin")
      greg
      (1001 ∷ 27 ∷ [])
      (sway_env profile settings.ui.env greg)
      (select true settings.mounts)
      (select false settings.mounts)
unfolding all_plain text xdg_runtime_dir decimal decimal_from sway_env sort_unstable insert_sorted
    entry_le str_eq str_le without_rootpath pushed_env select
host_plain = record {
  path_plain = refl;
  home_plain = refl;
  runtime_plain = refl;
  uid_below = omega arith;
  gid_below = omega arith;
  groups_below = (omega arith, (omega arith, tt));
  env_plain = (
    refl,
    (refl, (refl, (refl, (refl, (refl, (refl, (refl, (refl, (refl, (refl, (refl, tt))))))))))),
  );
  early_plain = (
    record {
      dir_plain = refl;
      device_plain = refl;
      fs_type_plain = refl;
      flags_below = omega arith;
      options_plain = tt;
      mode_below = tt;
    },
    tt,
  );
  late_plain = (
    record {
      dir_plain = refl;
      device_plain = refl;
      fs_type_plain = refl;
      flags_below = omega arith;
      options_plain = refl;
      mode_below = omega arith;
    },
    tt,
  );
}

pub host_interfaces : interfaces_value settings.net.interfaces ≡ some interfaces
unfolding interfaces_value interface_value addr_value parse_addr split_once parse_octet all_digits
    is_digit digits_value text
host_interfaces = refl

pub some_mounts :
    (1 ≤ length (select true settings.mounts)) × (1 ≤ length (select false settings.mounts))
unfolding select
some_mounts = (omega arith, omega arith)

abbrev pub readable : Readable found interfaces
readable = record {
  indexes = (omega arith, tt);
  addresses = host_interfaces;
  plain = host_plain;
  some_early = some_mounts.0;
  some_late = some_mounts.1;
}
