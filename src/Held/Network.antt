-- ===== src/Held/Network.antt =====
-- Descriptors in src/net.rs.
use ginit.Base.{
  ℕ, zero, suc, ℤ, pos, negsuc, is_neg, as_i32, as_u64, try_i32, try_u32, Bytes, List, [], ◌∷◌,
  Option, some, none, zeros, if◌then◌else◌, refl, ap,
}
use mathlib.Core.Option.{get_or}
use ginit.Machine.{spent, undefined, M, pure, ◌>>=◌}
use ginit.Config.{NetInterface, Config}
use ginit.Linux.Consts.{netlink_route}
use ginit.Linux.Calls.{socket}
use ginit.Linux.Console.{unwrap, with_fd}
use ginit.Linux.Spawn.{Result, ok, err}
use ginit.Net
use ginit.Net.{
  NetlinkSocket, Scan, found, exhausted, index_panic, beyond, unfinished, scan, after_scan,
  ack_error, send_and_ack, next_seq, start_iwd, add_addr_to_interface, add_route_to_interface,
  bring_interface_admin_up, address_of, admin_up_of, route_of, for_each, configure,
  setup_networking,
}
use ginit.Net.Encode.{from_be_bytes, add_addr_request, add_route_request, change_interface_request}
use ginit.Held.{pushed, opened, Keeps, Preserves}
use ginit.Held.Rules.{bind-Keeps, syscall-Keeps, pure-Keeps, stop-Keeps, if-Keeps}
use ginit.Held.Console.{write-Preserves, panic-Keeps, padding-Preserves, unwrap-Keeps}
use ginit.Held.Files.{read-Preserves, scope-Keeps}
use ginit.Held.Spawn.{spawn-Preserves}

after_scan-Preserves : (s : Scan) {next : M ℤ} → Preserves next → Preserves (after_scan s next)
unfolding after_scan
after_scan-Preserves (found e) k h = pure-Keeps e (λ _. h) refl
after_scan-Preserves exhausted k h = k h
after_scan-Preserves index_panic k h = panic-Keeps _ h (λ _. h)
after_scan-Preserves beyond k h = stop-Keeps undefined (λ w. tt)
after_scan-Preserves unfinished k h = stop-Keeps spent (λ w. tt)

unwrap-Preserves : {A : Type 0} (o : Option A) → Preserves (unwrap o)
unwrap-Preserves o h = unwrap-Keeps {K = λ _. h} o (λ a e. refl)

module _ (messages : ℕ) where
  on_recv-Preserves :
      (ret : ℤ) (buf : Bytes) {next : M ℤ}
      → Preserves next
      → Preserves (Net.on_recv messages ret buf next)
  unfolding Net.on_recv
  on_recv-Preserves (negsuc e) buf k = unwrap-Preserves (try_i32 (negsuc e))
  on_recv-Preserves (pos n) buf k = after_scan-Preserves (scan messages buf n 0) k

  ack_error-Preserves : (reads fd : ℕ) → Preserves (ack_error reads messages fd)
  unfolding ack_error
  ack_error-Preserves zero fd h = stop-Keeps spent (λ w. tt)
  ack_error-Preserves (suc reads) fd h =
      bind-Keeps (read-Preserves fd (zeros 8192) h)
        (λ (ret, buf). on_recv-Preserves ret buf (ack_error-Preserves reads fd) h)

module _ (reads messages : ℕ) where
  send_and_ack-Preserves :
      (s : NetlinkSocket) (req : Bytes) → Preserves (send_and_ack reads messages s req)
  unfolding send_and_ack
  send_and_ack-Preserves s req h = bind-Keeps (write-Preserves s.fd req h) (λ ret.
      if-Keeps (is_neg ret) (unwrap-Preserves (try_i32 ret) h)
        (ack_error-Preserves messages reads s.fd h))

  with_socket :
      (s : NetlinkSocket) {p : M ℤ}
      → Preserves p
      → Preserves {A = ℤ × NetlinkSocket} (do ret ← p; pure (ret, s))
  with_socket s kp h = bind-Keeps (kp h) (λ ret. pure-Keeps (ret, s) (λ _. h) refl)

  address_of-Preserves :
      (s : NetlinkSocket) (i : NetInterface) (addr : Option ℕ)
      → Preserves (address_of reads messages s i addr)
  unfolding address_of add_addr_to_interface
  address_of-Preserves s i none h = pure-Keeps (pos 0, s) (λ _. h) refl
  address_of-Preserves s i (some addr) h =
      with_socket (next_seq s).1
        (send_and_ack-Preserves (next_seq s).1 (
          add_addr_request (next_seq s).0 i.index addr
            (get_or i.broadcast (from_be_bytes 255 255 255 0))))
        h

  route_of-Preserves :
      (s : NetlinkSocket) (i : NetInterface) (gateway : Option ℕ)
      → Preserves (route_of reads messages s i gateway)
  unfolding route_of add_route_to_interface
  route_of-Preserves s i none h = pure-Keeps (pos 0, s) (λ _. h) refl
  route_of-Preserves s i (some gateway) h =
      with_socket (next_seq s).1
        (send_and_ack-Preserves (next_seq s).1 (add_route_request (next_seq s).0 i.index gateway)) h

  admin_up_of-Preserves :
      (s : NetlinkSocket) (i : NetInterface) → Preserves (admin_up_of reads messages s i)
  unfolding admin_up_of bring_interface_admin_up
  admin_up_of-Preserves s i h = bind-Keeps (unwrap-Preserves (try_i32 (pos i.index)) h) (λ index.
      bind-Keeps (padding-Preserves 1 h) (λ padding.
        with_socket (next_seq s).1
          (send_and_ack-Preserves (next_seq s).1
            (change_interface_request padding (next_seq s).0 (as_u64 index)))
          h))

  for_each-Preserves :
      {body : NetlinkSocket → NetInterface → M (ℤ × NetlinkSocket)}
      → ((s : NetlinkSocket) (i : NetInterface) → Preserves (body s i))
      → (s : NetlinkSocket) (interfaces : List NetInterface)
      → Preserves (for_each reads messages body s interfaces)
  unfolding for_each
  for_each-Preserves kb s [] h = pure-Keeps (pos 0, s) (λ _. h) refl
  for_each-Preserves kb s (i ∷ interfaces) h = bind-Keeps (kb s i h) (λ (ret, s').
      if-Keeps (is_neg ret) (pure-Keeps (ret, s') (λ _. h) refl)
        (for_each-Preserves kb s' interfaces h))

  configure-Preserves :
      (interfaces : List NetInterface) (s : NetlinkSocket)
      → Preserves (configure reads messages interfaces s)
  unfolding configure start_iwd
  configure-Preserves interfaces s h =
      bind-Keeps (for_each-Preserves (λ s' i. address_of-Preserves s' i i.addr) s interfaces h)
        (λ (r1, s1). if-Keeps (is_neg r1) (pure-Keeps r1 (λ _. h) refl) (
          bind-Keeps (for_each-Preserves admin_up_of-Preserves s1 interfaces h) (λ (r2, s2).
            if-Keeps (is_neg r2) (pure-Keeps r2 (λ _. h) refl) (
              bind-Keeps
                (for_each-Preserves (λ s' i. route_of-Preserves s' i i.gateway) s2 interfaces h)
                (λ (r3, s3).
                  if-Keeps (is_neg r3) (pure-Keeps r3 (λ _. h) refl) (spawn-Preserves _ _ _ h))))))

-- The socket that `new` has made.
abbrev with_new : Result NetlinkSocket → List ℕ → List ℕ
with_new (err e) h = h
with_new (ok s) h = s.fd ∷ h

new_socket :
    (fd : ℤ) (h : List ℕ)
    → Keeps
        (opened fd h)
        (if is_neg fd
          then pure (err fd)
          else (do n ← unwrap (try_u32 fd); pure (ok (record { fd = n; seq = 0 }))))
        (λ r. with_new r h)
unfolding try_u32
new_socket (negsuc k) h = pure-Keeps (err (negsuc k)) (λ r. with_new r h) refl
new_socket (pos k) h =
    bind-Keeps (unwrap-Keeps {K = λ n. n ∷ h} (try_u32 (pos k)) (λ a e. ap (λ o. pushed o h) e))
      (λ n. pure-Keeps (ok (record { fd = n; seq = 0 })) (λ r. with_new r h) refl)

new-Keeps : (protocol : ℕ) (h : List ℕ) → Keeps h (Net.new protocol) (λ r. with_new r h)
unfolding Net.new socket
new-Keeps protocol h =
    bind-Keeps
      (bind-Keeps (syscall-Keeps 41 _ h)
        (λ r. pure-Keeps (as_i32 r.ret) (λ ret. opened ret h) refl))
      (λ fd. new_socket fd h)

-- Whatever the kernel answers, `setup_networking` closes its socket.
pub setup_networking-Preserves :
    (reads messages : ℕ) (cfg : Config) → Preserves (setup_networking reads messages cfg)
unfolding setup_networking
setup_networking-Preserves reads messages cfg h = bind-Keeps (new-Keeps netlink_route h) after_new
  where
    after_new :
        (r : Result NetlinkSocket)
        → Keeps
            (with_new r h)
            (elim r [
              | err e ↦ pure e
              | ok s ↦ with_fd s.fd (configure reads messages cfg.net_interfaces s)
            ])
            (λ _. h)
    after_new (err e) = pure-Keeps e (λ _. h) refl
    after_new (ok s) = scope-Keeps s.fd h (configure-Preserves reads messages cfg.net_interfaces s)
