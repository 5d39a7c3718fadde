-- ===== src/Seat.antt =====
-- src/seat.rs: the server that opens devices for the compositor.
pub mod Flags
pub mod Requests
pub mod Rights
pub mod Session
use ginit.Base.{
  ℕ, zero, suc, ◌==◌, ◌|||◌, ℤ, pos, negsuc, neg, is_neg, eq_ℤ, as_u64, try_i32, try_u32, Bool,
  true, false, not, Bytes, [], ◌∷◌, ◌++◌, Option, none, some, get_elem?, c_str, le_bytes, zeros,
  if◌then◌else◌,
}
use ginit.Machine.{out_of_bounds, M, pure, stop, spent, ◌>>=◌, ◌>>◌}
use ginit.Layout.{Layout, int, struct}
use ginit.Linux.Consts.{
  af_unix, sock_dgram, sock_cloexec, f_getfd, f_setfd, fd_cloexec, msg_dontwait, eagain, o_rdwr,
  o_noctty, o_nofollow, o_cloexec, o_nonblock, sol_socket, scm_rights,
}
use ginit.Linux.Calls.{fcntl, recvfrom, open_file, sendmsg}
use ginit.Linux.Console.{stderr, with_value, writeln, panic, unwrap, drop_fd, with_fd}
use ginit.Linux.Spawn.{Result, ok, err, create_socket_pair}

-- `cmsghdr`: a `usize` and two `i32`.
abbrev cmsghdr_layout : Layout
cmsghdr_layout = struct (int 8 ∷ int 4 ∷ int 4 ∷ [])

-- `RightsCtrlMsg`: the header and an `i32`.
unfoldable pub rights_ctrl_msg_layout : Layout
unfolding struct
rights_ctrl_msg_layout = struct (cmsghdr_layout ∷ int 4 ∷ [])

pub record CmsgHdr : Type 0 where
  pub cmsg_len : ℕ
  pub cmsg_level : ℕ
  pub cmsg_type : ℕ

pub record RightsCtrlMsg : Type 0 where
  pub hdr : CmsgHdr
  pub fd : ℕ

-- `RightsCtrlMsg::new`
unfoldable pub rights_ctrl_msg : ℕ → RightsCtrlMsg
unfolding rights_ctrl_msg_layout
rights_ctrl_msg fd = record {
  hdr = record {
    cmsg_len = rights_ctrl_msg_layout.size;
    cmsg_level = sol_socket;
    cmsg_type = scm_rights;
  };
  fd = fd;
}

-- The message in memory; behind the descriptor stand four bytes of padding.
unfoldable pub rights_bytes : Bytes → RightsCtrlMsg → Bytes
rights_bytes padding r =
    le_bytes 8 r.hdr.cmsg_len
    ++ (le_bytes 4 r.hdr.cmsg_level ++ (le_bytes 4 r.hdr.cmsg_type ++ (le_bytes 4 r.fd ++ padding)))

pub record SeatServer : Type 0 where
  pub fd : ℕ

-- The flags of the descriptor for the compositor.
unfoldable pub mark_fd : ℕ → M (Result (Unit {0}))
mark_fd fd = do
  ret ← fcntl fd f_getfd 0
  if is_neg ret then pure (err ret) else (do
    ret' ← fcntl fd f_setfd (as_u64 ret ||| fd_cloexec)
    pure (if is_neg ret' then err ret' else ok tt))

-- On an error the pair goes out of scope, and both of its descriptors are closed.
unfoldable pub after_mark : ℕ × ℕ → Result (Unit {0}) → M (Result (SeatServer × ℕ))
after_mark (fd0, fd1) (err e) = do drop_fd fd0; drop_fd fd1; pure (err e)
after_mark (fd0, fd1) (ok _) = pure (ok (record { fd = fd0 }, fd1))

unfoldable pub after_pair : Result (ℕ × ℕ) → M (Result (SeatServer × ℕ))
after_pair (err e) = pure (err e)
after_pair (ok (fd0, fd1)) = do marked ← mark_fd fd1; after_mark (fd0, fd1) marked

-- `SeatServer::new`
unfoldable pub new : M (Result (SeatServer × ℕ))
unfolding after_pair after_mark mark_fd
new = do pair ← create_socket_pair af_unix (sock_dgram ||| sock_cloexec) 0; after_pair pair

-- The answer with a descriptor or, for `none`, without one; a failure to send is only written.
unfoldable pub reply : SeatServer → Option ℕ → M (Unit {0})
unfolding rights_ctrl_msg
reply server none = do
  socket ← unwrap (try_i32 (pos server.fd))
  ret ← sendmsg socket (0 ∷ []) [] 0
  if is_neg ret
      then writeln stderr (with_value "failed to send error message to Wayland compositor: " ret)
      else pure tt
reply server (some dev_fd) = do
  n ← unwrap (try_i32 (pos dev_fd))
  padding ← (λ m. pure (m.padding 4) m)
  socket ← unwrap (try_i32 (pos server.fd))
  ret ← sendmsg socket (0 ∷ []) (rights_bytes padding (rights_ctrl_msg (as_u64 n))) 0
  if is_neg ret
      then writeln stderr (with_value "failed to send device FD to Wayland compositor: " ret)
      else pure tt

abbrev pub device_flags : ℕ
device_flags = o_rdwr ||| o_noctty ||| o_nofollow ||| o_cloexec ||| o_nonblock

-- The device is closed when its descriptor has been sent.
unfoldable pub open_device : SeatServer → Bytes → M (Result Bool)
open_device server path = do
  dev_fd ← open_file path device_flags 0
  if is_neg dev_fd
      then (do reply server none; pure (ok true))
      else (do n ← unwrap (try_u32 dev_fd); with_fd n (do reply server (some n); pure (ok true)))

-- A datagram that does not end in a NUL is dropped.
unfoldable pub on_datagram : SeatServer → ℕ → Bytes → M (Result Bool)
on_datagram server zero buf = pure (ok true)
on_datagram server (suc k) buf = elim (get_elem? buf k) [
  | none ↦ panic out_of_bounds
  | some b ↦ if not (b == 0) then pure (ok true) else open_device server (c_str buf)
]

-- The `match` on the length.
unfoldable pub on_recv : SeatServer → ℤ → Bytes → M (Result Bool)
on_recv server (pos n) buf = on_datagram server n buf
on_recv server (negsuc e) buf = do
  code ← unwrap (try_i32 (negsuc e))
  pure (if eq_ℤ code (neg eagain) then ok false else err code)

unfoldable pub process_incoming_one : SeatServer → M (Result Bool)
unfolding on_recv on_datagram
process_incoming_one server = do
  socket ← unwrap (try_i32 (pos server.fd))
  (ret, buf) ← recvfrom socket (zeros 48) msg_dontwait
  on_recv server ret buf

-- `while self.process_incoming_one()? {}`
unfoldable pub process_incoming : ℕ → SeatServer → M (Result (Unit {0}))
process_incoming zero server = stop spent
process_incoming (suc fuel) server = do
  r ← process_incoming_one server
  elim r [
    | err e ↦ pure (err e)
    | ok more ↦ if more then process_incoming fuel server else pure (ok tt)
  ]
