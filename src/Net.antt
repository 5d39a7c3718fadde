-- ===== src/Net.antt =====
-- src/net.rs: the requests that set up the network over a netlink socket.
pub mod Encode
pub mod Requests
pub mod Messages
pub mod Acks
pub mod Memory
pub mod Order
use ginit.Base.{
  ℕ, zero, suc, ◌+◌, ◌%◌, ◌^◌, ltb, ◌==◌, ℤ, pos, negsuc, is_neg, as_i32, as_u64, try_i32, try_u32,
  Bytes, List, [], ◌∷◌, Option, none, some, length, take, drop, slice, le_value, zeros, text,
  if◌then◌else◌,
}
use mathlib.Core.Option.{get_or}
use ginit.Machine.{out_of_bounds, M, pure, stop, spent, undefined, ◌>>=◌}
use ginit.Config.{NetInterface, Config}
use ginit.Linux.Consts.{af_netlink, sock_raw, netlink_route, nlmsg_error}
use ginit.Linux.Calls.{socket, read, write}
use ginit.Linux.Console.{panic, unwrap, with_fd}
use ginit.Linux.Spawn.{Result, ok, err, spawn}
use ginit.Net.Encode.{
  add_addr_request, add_route_request, change_interface_request, from_be_bytes, nlmsghdr_layout,
  nlmsgerr_layout,
}

pub record NetlinkSocket : Type 0 where
  pub fd : ℕ
  pub seq : ℕ

-- `NetlinkSocket::new`
unfoldable pub new : ℕ → M (Result NetlinkSocket)
new protocol = do
  fd ← socket af_netlink sock_raw protocol
  if is_neg fd
      then pure (err fd)
      else (do n ← unwrap (try_u32 fd); pure (ok (record { fd = n; seq = 0 })))

-- The next sequence number, which wraps in a release build.
unfoldable pub next_seq : NetlinkSocket → ℕ × NetlinkSocket
next_seq s = (s.seq, record s { seq = (s.seq + 1) % 2 ^ 32 })

-- What the inner loop of `ack_error` finds in a buffer.
pub data Scan : Type 0 where
  found : ℤ → Scan
  exhausted : Scan
  index_panic : Scan
  beyond : Scan
  unfinished : Scan

-- `ptr::read(buf[i..].as_ptr())` of `size` bytes: the index panics beyond the end, and a read that
-- crosses the end is undefined.
unfoldable pub on_read_at : ℕ → Bytes → ℕ → (Bytes → Scan) → Scan
on_read_at i buf size next =
    if ltb (length buf) i
    then index_panic
    else elim (slice i (i + size) buf) [ none ↦ beyond | some b ↦ next b ]

-- The error of the message behind a header.
unfoldable pub on_payload : ℕ → Bytes → Scan
unfolding on_read_at
on_payload i buf =
    on_read_at (i + nlmsghdr_layout.size) buf nlmsgerr_layout.size
      (λ b. found (as_i32 (pos (le_value (take 4 b)))))

-- One round: the message at `i`, or what is left is shorter than a header.
unfoldable pub scan : ℕ → Bytes → ℕ → ℕ → Scan
unfolding on_read_at on_payload
scan zero buf len i = unfinished
scan (suc fuel) buf len i =
    if ltb len (i + nlmsghdr_layout.size)
    then exhausted
    else on_read_at i buf nlmsghdr_layout.size (λ hdr.
      if le_value (take 2 (drop 4 hdr)) == nlmsg_error
      then on_payload i buf
      else scan fuel buf len (i + le_value (take 4 hdr)))

unfoldable pub after_scan : Scan → M ℤ → M ℤ
after_scan (found error) next = pure error
after_scan exhausted next = next
after_scan index_panic next = panic out_of_bounds
after_scan beyond next = stop undefined
after_scan unfinished next = stop spent

unfoldable pub on_recv : ℕ → ℤ → Bytes → M ℤ → M ℤ
on_recv messages (negsuc e) buf next = unwrap (try_i32 (negsuc e))
on_recv messages (pos n) buf next = after_scan (scan messages buf n 0) next

-- The loop round `recv`; the fuel bounds the reads, and the messages of each.
unfoldable pub ack_error : ℕ → ℕ → ℕ → M ℤ
unfolding on_recv after_scan
ack_error zero messages fd = stop spent
ack_error (suc reads) messages fd = do
  (ret, buf) ← read fd (zeros 8192)
  on_recv messages ret buf (ack_error reads messages fd)

-- `socket.send(req_bytes)` and what follows it in each of the three requests.
unfoldable pub send_and_ack : ℕ → ℕ → NetlinkSocket → Bytes → M ℤ
send_and_ack reads messages s req = do
  ret ← write s.fd req
  if is_neg ret then unwrap (try_i32 ret) else ack_error reads messages s.fd

unfoldable pub start_iwd : M ℤ
start_iwd = spawn (text "/usr/libexec/iwd") (text "/usr/libexec/iwd" ∷ []) []

module _ (reads messages : ℕ) where
  -- The result, and the socket with its next sequence number.
  unfoldable pub add_addr_to_interface : NetlinkSocket → ℕ → ℕ → ℕ → M (ℤ × NetlinkSocket)
  unfolding send_and_ack next_seq
  add_addr_to_interface s interface_index addr broadcast = do
    let (seq, s') = next_seq s
    ret ← send_and_ack reads messages s' (add_addr_request seq interface_index addr broadcast)
    pure (ret, s')

  unfoldable pub add_route_to_interface : NetlinkSocket → ℕ → ℕ → M (ℤ × NetlinkSocket)
  unfolding send_and_ack next_seq
  add_route_to_interface s interface_index gateway = do
    let (seq, s') = next_seq s
    ret ← send_and_ack reads messages s' (add_route_request seq interface_index gateway)
    pure (ret, s')

  unfoldable pub bring_interface_admin_up : NetlinkSocket → ℕ → M (ℤ × NetlinkSocket)
  unfolding send_and_ack next_seq
  bring_interface_admin_up s interface_index = do
    let (seq, s') = next_seq s
    padding ← (λ m. pure (m.padding 1) m)
    ret ← send_and_ack reads messages s' (change_interface_request padding seq interface_index)
    pure (ret, s')

  -- What one loop does with one interface; 0 where it goes on without a request.
  unfoldable pub address_of : NetlinkSocket → NetInterface → Option ℕ → M (ℤ × NetlinkSocket)
  address_of s i none = pure (pos 0, s)
  address_of s i (some addr) =
      add_addr_to_interface s i.index addr (get_or i.broadcast (from_be_bytes 255 255 255 0))

  unfoldable pub admin_up_of : NetlinkSocket → NetInterface → M (ℤ × NetlinkSocket)
  admin_up_of s i = do
    index ← unwrap (try_i32 (pos i.index))
    bring_interface_admin_up s (as_u64 index)

  unfoldable pub route_of : NetlinkSocket → NetInterface → Option ℕ → M (ℤ × NetlinkSocket)
  route_of s i none = pure (pos 0, s)
  route_of s i (some gateway) = add_route_to_interface s i.index gateway

  -- A loop over the interfaces, up to the first error.
  unfoldable pub for_each :
      (NetlinkSocket → NetInterface → M (ℤ × NetlinkSocket))
      → NetlinkSocket
      → List NetInterface
      → M (ℤ × NetlinkSocket)
  for_each body s [] = pure (pos 0, s)
  for_each body s (i ∷ interfaces) = do
    (ret, s') ← body s i
    if is_neg ret then pure (ret, s') else for_each body s' interfaces

  -- The three loops and the start of the wireless daemon.
  unfoldable pub configure : List NetInterface → NetlinkSocket → M ℤ
  unfolding for_each address_of admin_up_of route_of
  configure interfaces s = do
    (r1, s1) ← for_each (λ s' i. address_of s' i i.addr) s interfaces
    if is_neg r1 then pure r1 else (do
      (r2, s2) ← for_each admin_up_of s1 interfaces
      if is_neg r2 then pure r2 else (do
        (r3, s3) ← for_each (λ s' i. route_of s' i i.gateway) s2 interfaces
        if is_neg r3 then pure r3 else start_iwd))

  unfoldable pub setup_networking : Config → M ℤ
  setup_networking cfg = do
    r ← new netlink_route
    elim r [ err e ↦ pure e | ok s ↦ with_fd s.fd (configure cfg.net_interfaces s) ]
