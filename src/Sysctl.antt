-- ===== src/Sysctl.antt =====
-- src/sysctl.rs: the kernel options.
use ginit.Base.{is_neg, try_u32, String, Bytes, List, [], ◌∷◌, text, if◌then◌else◌}
use ginit.Machine.{M, pure, ◌>>=◌, ◌>>◌}
use ginit.Linux.Consts.{o_wronly}
use ginit.Linux.Calls.{open_file, write}
use ginit.Linux.Console.{stderr, with_value, writeln, warn_if_neg, unwrap, with_fd}

-- Errors are written, and no more.
unfoldable pub open_and_write : Bytes → Bytes → M (Unit {0})
open_and_write path content = do
  fd ← open_file path o_wronly 0
  if is_neg fd then writeln stderr (with_value "failed to open sysctl file: " fd) else (do
    n ← unwrap (try_u32 fd)
    with_fd n (do ret ← write n content; warn_if_neg "failed to write to sysctl file: " ret))

-- The options in the order of the source.
abbrev pub options : List (String × String)
options =
    ("/proc/sys/fs/protected_fifos", "1")
    ∷ ("/proc/sys/fs/protected_hardlinks", "1")
    ∷ ("/proc/sys/fs/protected_regular", "1")
    ∷ ("/proc/sys/fs/protected_symlinks", "1")
    ∷ ("/proc/sys/kernel/kptr_restrict", "2")
    ∷ ("/proc/sys/net/ipv4/conf/all/accept_redirects", "0")
    ∷ ("/proc/sys/net/ipv4/conf/all/send_redirects", "0")
    ∷ ("/proc/sys/net/ipv4/conf/all/ignore_routes_with_linkdown", "1")
    ∷ ("/proc/sys/net/ipv4/conf/all/rp_filter", "1")
    ∷ ("/proc/sys/net/ipv4/tcp_mtu_probing", "1")
    ∷ ("/proc/sys/net/ipv4/tcp_rfc1337", "1")
    ∷ ("/proc/sys/net/ipv6/conf/all/accept_redirects", "0")
    ∷ ("/proc/sys/net/ipv6/conf/all/use_tempaddr", "2")
    ∷ ("/proc/sys/vm/admin_reserve_kbytes", "0")
    ∷ ("/proc/sys/vm/dirty_background_ratio", "75")
    ∷ ("/proc/sys/vm/dirty_expire_centisecs", "90000")
    ∷ ("/proc/sys/vm/dirty_ratio", "75")
    ∷ ("/proc/sys/vm/dirty_writeback_centisecs", "90000")
    ∷ ("/proc/sys/vm/overcommit_memory", "2")
    ∷ ("/proc/sys/vm/overcommit_ratio", "100")
    ∷ ("/proc/sys/vm/stat_interval", "10")
    ∷ ("/proc/sys/vm/user_reserve_kbytes", "0")
    ∷ []

-- One call for each option.
unfoldable pub apply_each : List (String × String) → M (Unit {0})
apply_each [] = pure tt
apply_each ((path, content) ∷ rest) = do open_and_write (text path) (text content); apply_each rest

unfoldable pub apply_sysctl : M (Unit {0})
unfolding apply_each
apply_sysctl = apply_each options
