-- ===== src/Held/Requests.antt =====
-- Descriptors in src/seat.rs, and in `create_socket_pair` of src/linux.rs.
use ginit.Base.{
  ℕ, zero, suc, ◌==◌, ◌|||◌, ℤ, pos, negsuc, neg, is_neg, not, eq_ℤ, as_i32, as_u64, try_i32,
  try_u32, Bool, true, false, String, Bytes, List, [], ◌∷◌, Option, some, none, get_elem?, zeros,
  overwrite, if◌then◌else◌, refl, ◌≡◌, c_str, arith,
}
use ginit.Machine.{out_of_bounds, spent, undefined, pure, ◌>>=◌}
use ginit.Linux.Consts.{
  af_unix, sock_dgram, sock_cloexec, f_getfd, f_setfd, fd_cloexec, eagain, einval,
}
use ginit.Linux.Calls.{socketpair, fcntl, recvfrom, sendmsg}
use ginit.Linux.Console.{warn_if_neg, panic}
use ginit.Linux.Spawn.{Result, ok, err, both_fds, create_socket_pair}
use ginit.Seat
use ginit.Seat.{
  SeatServer, mark_fd, after_mark, after_pair, rights_bytes, rights_ctrl_msg, reply, open_device,
  device_flags, on_datagram, process_incoming_one, process_incoming,
}
use ginit.Held.{without, paired, Keeps, Preserves}
use ginit.Held.Rules.{bind-Keeps, syscall-Keeps, pure-Keeps, stop-Keeps, if-Keeps, then-Preserves}
use ginit.Held.Console.{
  panic-Keeps, warn_if_neg-Preserves, padding-Preserves, unwrap-Keeps, drop_fd-Keeps,
}
use ginit.Held.Files.{open_file-Keeps, opened-Keeps}

-- The pair that a function returns.
abbrev pub with_pair : Result (ℕ × ℕ) → List ℕ → List ℕ
with_pair (err e) h = h
with_pair (ok (s0, s1)) h = s1 ∷ s0 ∷ h

both_fds-Keeps :
    (fds : List ℤ) (h : List ℕ) → Keeps (paired fds h) (both_fds fds) (λ r. with_pair r h)
unfolding both_fds
both_fds-Keeps [] h = stop-Keeps undefined (λ w. tt)
both_fds-Keeps (a ∷ []) h = stop-Keeps undefined (λ w. tt)
both_fds-Keeps (a ∷ b ∷ rest) h = go (try_u32 a) (try_u32 b)
  where
    go :
        (x y : Option ℕ)
        → Keeps
            (elim x [ none ↦ h | some s0 ↦ elim y [ none ↦ h | some s1 ↦ s1 ∷ s0 ∷ h ] ])
            (elim x [
              | none ↦ pure (err (neg einval))
              | some s0 ↦ elim y [ none ↦ pure (err (neg einval)) | some s1 ↦ pure (ok (s0, s1)) ]
            ])
            (λ r. with_pair r h)
    go none y = pure-Keeps (err (neg einval)) (λ r. with_pair r h) refl
    go (some s0) none = pure-Keeps (err (neg einval)) (λ r. with_pair r h) refl
    go (some s0) (some s1) = pure-Keeps (ok (s0, s1)) (λ r. with_pair r h) refl

checked_pair :
    (success : Bool) (ret : ℤ) (fds : List ℤ) (h : List ℕ)
    → Keeps
        (if success then paired fds h else h)
        (if not success then pure (err ret) else both_fds fds)
        (λ r. with_pair r h)
checked_pair true ret fds h = both_fds-Keeps fds h
checked_pair false ret fds h = pure-Keeps (err ret) (λ r. with_pair r h) refl

create_socket_pair-Keeps :
    (family type_ protocol : ℕ) (h : List ℕ)
    → Keeps h (create_socket_pair family type_ protocol) (λ r. with_pair r h)
unfolding create_socket_pair socketpair
create_socket_pair-Keeps family type_ protocol h =
    bind-Keeps
      (bind-Keeps (syscall-Keeps 53 _ h) (λ r.
        pure-Keeps (as_i32 r.ret, r.ints)
          (λ (ret, fds). if eq_ℤ ret (pos 0) then paired fds h else h) refl))
      (λ (ret, fds). checked_pair (eq_ℤ ret (pos 0)) ret fds h)

fcntl-Preserves : (fd cmd arg : ℕ) → Preserves (fcntl fd cmd arg)
unfolding fcntl
fcntl-Preserves fd cmd arg h =
    bind-Keeps (syscall-Keeps 72 _ h) (λ r. pure-Keeps (as_i32 r.ret) (λ _. h) refl)

mark_fd-Preserves : (fd : ℕ) → Preserves (mark_fd fd)
unfolding mark_fd
mark_fd-Preserves fd h = bind-Keeps (fcntl-Preserves fd f_getfd 0 h) (λ ret.
    if-Keeps (is_neg ret) (pure-Keeps (err ret) (λ _. h) refl) (
      bind-Keeps (fcntl-Preserves fd f_setfd (as_u64 ret ||| fd_cloexec) h)
        (λ ret'. pure-Keeps (if is_neg ret' then err ret' else ok tt) (λ _. h) refl)))

without-both : (a b : ℕ) (h : List ℕ) → without b (without a (b ∷ a ∷ h)) ≡ h
without-both a b h = grind arith

-- The server and the descriptor of the compositor.
abbrev pub with_server : Result (SeatServer × ℕ) → List ℕ → List ℕ
with_server (err e) h = h
with_server (ok (server, fd)) h = fd ∷ server.fd ∷ h

after_mark-Keeps :
    (fd0 fd1 : ℕ) (h : List ℕ) (marked : Result (Unit {0}))
    → Keeps (fd1 ∷ fd0 ∷ h) (after_mark (fd0, fd1) marked) (λ r. with_server r h)
unfolding after_mark
after_mark-Keeps fd0 fd1 h (err e) = bind-Keeps (drop_fd-Keeps fd0 _) (λ _.
    bind-Keeps (drop_fd-Keeps fd1 _)
      (λ _. pure-Keeps (err e) (λ r. with_server r h) (without-both fd0 fd1 h)))
after_mark-Keeps fd0 fd1 h (ok _) =
    pure-Keeps (ok (record { fd = fd0 }, fd1)) (λ r. with_server r h) refl

after_pair-Keeps :
    (h : List ℕ) (pair : Result (ℕ × ℕ))
    → Keeps (with_pair pair h) (after_pair pair) (λ r. with_server r h)
unfolding after_pair
after_pair-Keeps h (err e) = pure-Keeps (err e) (λ r. with_server r h) refl
after_pair-Keeps h (ok (fd0, fd1)) =
    bind-Keeps (mark_fd-Preserves fd1 _) (λ marked. after_mark-Keeps fd0 fd1 h marked)

-- On success the pair stays open, and on an error both are closed.
pub new-Keeps : (h : List ℕ) → Keeps h Seat.new (λ r. with_server r h)
unfolding Seat.new
new-Keeps h =
    bind-Keeps (create_socket_pair-Keeps af_unix (sock_dgram ||| sock_cloexec) 0 h)
      (after_pair-Keeps h)

-- Sending, and the message about its error.
sends_or_tells :
    (message : String) (socket : ℤ) (iov control : Bytes)
    → Preserves (do ret ← sendmsg socket iov control 0; warn_if_neg message ret)
unfolding sendmsg
sends_or_tells message socket iov control h =
    bind-Keeps (bind-Keeps (syscall-Keeps 46 _ h) (λ r. pure-Keeps r.ret (λ _. h) refl))
      (λ ret. warn_if_neg-Preserves message ret h)

reply-Preserves : (server : SeatServer) (dev : Option ℕ) → Preserves (reply server dev)
unfolding reply warn_if_neg
reply-Preserves server none h =
    bind-Keeps (unwrap-Keeps {K = λ _. h} (try_i32 (pos server.fd)) (λ a e. refl)) (λ socket.
      sends_or_tells "failed to send error message to Wayland compositor: " socket (0 ∷ []) [] h)
reply-Preserves server (some n) h =
    bind-Keeps (unwrap-Keeps {K = λ _. h} (try_i32 (pos n)) (λ a e. refl)) (λ fd.
      bind-Keeps (padding-Preserves 4 h) (λ padding.
        bind-Keeps (unwrap-Keeps {K = λ _. h} (try_i32 (pos server.fd)) (λ a e. refl)) (λ socket.
          sends_or_tells "failed to send device FD to Wayland compositor: " socket (0 ∷ [])
            (rights_bytes padding (rights_ctrl_msg (as_u64 fd))) h)))

open_device-Preserves : (server : SeatServer) (path : Bytes) → Preserves (open_device server path)
unfolding open_device
open_device-Preserves server path h = bind-Keeps (open_file-Keeps path device_flags 0 h) (λ fd.
    opened-Keeps fd h
      (λ h'. then-Preserves (reply-Preserves server none) (pure-Keeps (ok true) (λ _. h') refl))
      (λ n h'.
        then-Preserves (reply-Preserves server (some n)) (pure-Keeps (ok true) (λ _. h') refl)))

on_byte-Preserves :
    (server : SeatServer) (buf : Bytes) (o : Option ℕ)
    → Preserves {A = Result Bool} (elim o [
      | none ↦ panic out_of_bounds
      | some b ↦ if not (b == 0) then pure (ok true) else open_device server (c_str buf)
    ])
on_byte-Preserves server buf none h = panic-Keeps _ h (λ _. h)
on_byte-Preserves server buf (some b) h =
    if-Keeps (not (b == 0)) (pure-Keeps (ok true) (λ _. h) refl) (open_device-Preserves server _ h)

on_datagram-Preserves :
    (server : SeatServer) (n : ℕ) (buf : Bytes) → Preserves (on_datagram server n buf)
unfolding on_datagram
on_datagram-Preserves server zero buf h = pure-Keeps (ok true) (λ _. h) refl
on_datagram-Preserves server (suc k) buf h = on_byte-Preserves server buf (get_elem? buf k) h

on_recv-Preserves :
    (server : SeatServer) (ret : ℤ) (buf : Bytes) → Preserves (Seat.on_recv server ret buf)
unfolding Seat.on_recv
on_recv-Preserves server (pos n) buf h = on_datagram-Preserves server n buf h
on_recv-Preserves server (negsuc e) buf h =
    bind-Keeps (unwrap-Keeps {K = λ _. h} (try_i32 (negsuc e)) (λ a q. refl))
      (λ code. pure-Keeps (if eq_ℤ code (neg eagain) then ok false else err code) (λ _. h) refl)

process_incoming_one-Preserves : (server : SeatServer) → Preserves (process_incoming_one server)
unfolding process_incoming_one recvfrom
process_incoming_one-Preserves server h =
    bind-Keeps (unwrap-Keeps {K = λ _. h} (try_i32 (pos server.fd)) (λ a e. refl)) (λ socket.
      bind-Keeps
        (bind-Keeps (syscall-Keeps 45 _ h)
          (λ r. pure-Keeps (r.ret, overwrite (zeros 48) r.stored) (λ _. h) refl))
        (λ (ret, buf). on_recv-Preserves server ret buf h))

pub process_incoming-Preserves :
    (fuel : ℕ) (server : SeatServer) → Preserves (process_incoming fuel server)
unfolding process_incoming
process_incoming-Preserves zero server h = stop-Keeps spent (λ w. tt)
process_incoming-Preserves (suc fuel) server h =
    bind-Keeps (process_incoming_one-Preserves server h)
      (next (process_incoming-Preserves fuel server))
  where
    next :
        Preserves (process_incoming fuel server)
        → (r : Result Bool)
        → Keeps h
            (elim r [
              | err e ↦ pure (err e)
              | ok more ↦ if more then process_incoming fuel server else pure (ok tt)
            ])
            (λ _. h)
    next k (err e) = pure-Keeps (err e) (λ _. h) refl
    next k (ok more) = if-Keeps more (k h) (pure-Keeps (ok tt) (λ _. h) refl)
