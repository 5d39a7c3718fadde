-- ===== src/Build/Libc.antt =====
-- `libc_check_error`, `getgrouplist` and `Passwd` of build.rs. The name is passed as a pointer
-- to a `str`: libc reads on behind it, up to the first NUL in memory.
pub mod Names
use ginit.Base.{
  ℕ, zero, suc, ℤ, pos, negsuc, Bytes, List, Option, none, some, ◌++◌, overwrite, replicate, c_str,
}
use ginit.Build.Str.{◌>>=◌, from_utf8}
use ginit.Build.Settings.{CPasswd, GroupsReply, Host}

-- Wraps a return value from a `libc` function into an `io::Result`.
unfoldable pub libc_check_error : ℤ → Option ℤ
libc_check_error (pos n) = some (pos n)
libc_check_error (negsuc zero) = none
libc_check_error (negsuc (suc n)) = some (negsuc (suc n))

-- `usize::try_from(num)`
abbrev pub to_usize : ℤ → Option ℕ
to_usize (pos n) = some n
to_usize (negsuc n) = none

-- The C string that the pointer to the name leads to.
unfoldable pub name_pointer : Host → Bytes → Bytes
name_pointer host name = c_str (name ++ host.behind_user)

unfoldable pub getgrouplist : Host → Bytes → ℕ → Option (List ℕ)
getgrouplist host name group = do
  let first = host.getgrouplist (name_pointer host name) group (pos 0)
  len ← to_usize first.num
  let second = host.getgrouplist (name_pointer host name) group first.num
  ret ← libc_check_error second.ret
  some (overwrite (replicate len 0) second.stored)

-- A system `/etc/passwd` entry for a user.
pub record Passwd : Type 0 where
  pub name : Bytes
  pub passwd : Bytes
  pub uid : ℕ
  pub gid : ℕ
  pub gecos : Bytes
  pub dir : Bytes
  pub shell : Bytes

unfoldable pub buffer_size : ℤ → ℕ
buffer_size (pos n) = n
buffer_size (negsuc n) = 16384

unfoldable pub get_from_username : Host → Bytes → Option Passwd
get_from_username host name = do
  pwd ← host.getpwnam_r (name_pointer host name) (buffer_size host.sysconf)
  pw_name ← from_utf8 pwd.pw_name
  pw_passwd ← from_utf8 pwd.pw_passwd
  pw_gecos ← from_utf8 pwd.pw_gecos
  pw_dir ← from_utf8 pwd.pw_dir
  pw_shell ← from_utf8 pwd.pw_shell
  some (record {
    name = pw_name;
    passwd = pw_passwd;
    uid = pwd.pw_uid;
    gid = pwd.pw_gid;
    gecos = pw_gecos;
    dir = pw_dir;
    shell = pw_shell;
  })
