-- ===== src/Linux/Consts.antt =====
-- src/linux.rs: the constants that the modelled code uses. An `i32` constant that is a plain
-- number or a mask is a natural number; the errors are written `neg eagain` where they are used.
use ginit.Base.{ℕ}

abbrev pub af_unspec : ℕ
af_unspec = 0

abbrev pub af_unix : ℕ
af_unix = 1

abbrev pub af_inet : ℕ
af_inet = 2

abbrev pub af_netlink : ℕ
af_netlink = 16

abbrev pub arphrd_none : ℕ
arphrd_none = 0xfffe

abbrev pub clone_vm : ℕ
clone_vm = 0x100

abbrev pub clone_vfork : ℕ
clone_vfork = 0x4000

abbrev pub esrch : ℕ
esrch = 3

abbrev pub eintr : ℕ
eintr = 4

abbrev pub echild : ℕ
echild = 10

abbrev pub eagain : ℕ
eagain = 11

abbrev pub enomem : ℕ
enomem = 12

abbrev pub einval : ℕ
einval = 22

abbrev pub ifa_address : ℕ
ifa_address = 1

abbrev pub ifa_local : ℕ
ifa_local = 2

abbrev pub ifa_broadcast : ℕ
ifa_broadcast = 4

abbrev pub iff_up : ℕ
iff_up = 0x1

abbrev pub linux_reboot_magic2 : ℕ
linux_reboot_magic2 = 672274793

abbrev pub netlink_route : ℕ
netlink_route = 0

abbrev pub nlmsg_error : ℕ
nlmsg_error = 0x2

abbrev pub nlm_f_request : ℕ
nlm_f_request = 1

abbrev pub nlm_f_ack : ℕ
nlm_f_ack = 4

abbrev pub nlm_f_excl : ℕ
nlm_f_excl = 0x200

abbrev pub nlm_f_create : ℕ
nlm_f_create = 0x400

abbrev pub o_rdonly : ℕ
o_rdonly = 0o0

abbrev pub o_wronly : ℕ
o_wronly = 0o1

abbrev pub o_rdwr : ℕ
o_rdwr = 0o2

abbrev pub o_creat : ℕ
o_creat = 0o100

abbrev pub o_noctty : ℕ
o_noctty = 0o400

abbrev pub o_trunc : ℕ
o_trunc = 0o1000

abbrev pub o_nofollow : ℕ
o_nofollow = 0o400000

abbrev pub o_cloexec : ℕ
o_cloexec = 0o2000000

abbrev pub o_nonblock : ℕ
o_nonblock = 0o4000

abbrev pub f_getfd : ℕ
f_getfd = 1

abbrev pub f_setfd : ℕ
f_setfd = 2

abbrev pub fd_cloexec : ℕ
fd_cloexec = 1

abbrev pub rb_power_off : ℕ
rb_power_off = 0x4321fedc

abbrev pub rta_oif : ℕ
rta_oif = 4

abbrev pub rta_gateway : ℕ
rta_gateway = 5

abbrev pub rtm_setlink : ℕ
rtm_setlink = 19

abbrev pub rtm_newaddr : ℕ
rtm_newaddr = 20

abbrev pub rtm_newroute : ℕ
rtm_newroute = 24

abbrev pub rtn_unicast : ℕ
rtn_unicast = 1

abbrev pub rtprot_boot : ℕ
rtprot_boot = 3

abbrev pub rt_scope_universe : ℕ
rt_scope_universe = 0

abbrev pub rt_table_main : ℕ
rt_table_main = 254

abbrev pub sigterm : ℕ
sigterm = 15

abbrev pub sigchld : ℕ
sigchld = 17

abbrev pub sol_socket : ℕ
sol_socket = 1

abbrev pub scm_rights : ℕ
scm_rights = 1

abbrev pub sock_dgram : ℕ
sock_dgram = 2

abbrev pub sock_raw : ℕ
sock_raw = 3

abbrev pub sock_cloexec : ℕ
sock_cloexec = 0o2000000

abbrev pub msg_dontwait : ℕ
msg_dontwait = 0x40

abbrev pub sfd_nonblock : ℕ
sfd_nonblock = 0o4000

abbrev pub sfd_cloexec : ℕ
sfd_cloexec = 0o2000000

abbrev pub pollin : ℕ
pollin = 0x1

abbrev pub pollerr : ℕ
pollerr = 0x8

abbrev pub pollnval : ℕ
pollnval = 0x20

abbrev pub wnohang : ℕ
wnohang = 1

abbrev pub sig_block : ℕ
sig_block = 0
