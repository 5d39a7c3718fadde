-- ===== src/Seat/Flags.antt =====
-- The flags of the descriptor that `SeatServer::new` of src/seat.rs makes for the compositor.
use ginit.Base.{
  ℕ, ◌%◌, ◌≡◌, refl, ℤ, pos, negsuc, as_u64, List, [], ◌∷◌, is_neg, ◌|||◌, if◌then◌else◌, ap,
}
use ginit.Base.Bits.{bit_or-one}
use ginit.Machine.{Machine, World, Event, done, word, pure, ◌>>=◌}
use ginit.Machine.Runs.{bind-done}
use ginit.Linux.Consts.{f_setfd, fd_cloexec, af_unix, sock_dgram, sock_cloexec}
use ginit.Linux.Calls.{fcntl}
use ginit.Linux.Console.{drop_fd}
use ginit.Linux.Spawn.{Result, ok, err, create_socket_pair}
use ginit.Seat.{SeatServer, mark_fd, after_mark, after_pair, new}

-- The newest call sets the flags of `fd`, with the lowest bit, `FD_CLOEXEC`, set.
pub record ClosesOnExec (fd : ℕ) (w : World) : Type 0 where
  pub flags : ℕ
  pub before : List Event
  pub event : Event
  pub history_is : w.history ≡ event ∷ before
  pub num_is : event.call.num ≡ 72
  pub args_are : event.call.args ≡ word fd ∷ word f_setfd ∷ word flags ∷ []
  pub flag_is_set : flags % 2 ≡ 1

set_flags :
    (fd flags : ℕ) (m : Machine) (w : World)
    → flags % 2 ≡ 1
    → ClosesOnExec fd (fcntl fd f_setfd flags m w).1
unfolding fcntl
set_flags fd flags m w h = record {
  flags = flags;
  before = w.history;
  event = record {
    task = w.task;
    call = record { num = 72; args = word fd ∷ word f_setfd ∷ word flags ∷ [] };
    reply = m.kernel w (record { num = 72; args = word fd ∷ word f_setfd ∷ word flags ∷ [] });
  };
  history_is = refl;
  num_is = refl;
  args_are = refl;
  flag_is_set = h;
}

end_of_mark :
    (fd : ℕ) (m : Machine) (ret : ℤ) (v w : World)
    → ClosesOnExec fd v
    → pure {A = Result (Unit {0})} (if is_neg ret then err ret else ok tt) m v ≡ (done (ok tt), w)
    → ClosesOnExec fd w
end_of_mark fd m (pos n) v w c e = let q : v ≡ w = ap (λ x. x.1) e in rw (← q) c
end_of_mark fd m (negsuc n) v w c e = absurd (cc)

from_flags :
    (fd : ℕ) (m : Machine) (ret : ℤ) (v w : World)
    → (if is_neg ret then pure (err ret) else (do
      ret' ← fcntl fd f_setfd (as_u64 ret ||| fd_cloexec)
      pure (if is_neg ret' then err ret' else ok tt)))
        m v
      ≡ (done (ok tt), w)
    → ClosesOnExec fd w
unfolding fcntl
from_flags fd m (negsuc n) v w e = absurd (cc)
from_flags fd m (pos n) v w e =
    end_of_mark fd m _ _ w
      (set_flags fd (as_u64 (pos n) ||| fd_cloexec) m v (bit_or-one (as_u64 (pos n)))) e

mark_fd-ClosesOnExec :
    (fd : ℕ) (m : Machine) (w w' : World) → mark_fd fd m w ≡ (done (ok tt), w') → ClosesOnExec fd w'
unfolding mark_fd fcntl
mark_fd-ClosesOnExec fd m w w' e = from_flags fd m _ _ w' e

of_mark :
    (m : Machine) (v w : World) (server : SeatServer) (fd fd0 fd1 : ℕ) (marked : Result (Unit {0}))
    → mark_fd fd1 m v ≡ (done marked, w)
    → (w' : World) → after_mark (fd0, fd1) marked m w ≡ (done (ok (server, fd)), w')
    → ClosesOnExec fd w'
unfolding after_mark
of_mark m v w server fd fd0 fd1 (err x) e w' q =
    let (a, v1, p1, q1) = bind-done (drop_fd fd0 m w) _ m (ok (server, fd)) w' q in
    let (b, v2, p2, q2) = bind-done (drop_fd fd1 m v1) _ m (ok (server, fd)) w' q1 in absurd (cc)
of_mark m v w server fd fd0 fd1 (ok _) e w' q =
    let p : fd1 ≡ fd = cc in
    let p' : w ≡ w' = cc in rw (← p, ← p') (mark_fd-ClosesOnExec fd1 m v w e)

of_pair :
    (m : Machine) (v w : World) (server : SeatServer) (fd : ℕ) (pair : Result (ℕ × ℕ))
    → after_pair pair m v ≡ (done (ok (server, fd)), w)
    → ClosesOnExec fd w
unfolding after_pair
of_pair m v w server fd (err x) e = absurd (cc)
of_pair m v w server fd (ok (fd0, fd1)) e =
    let (marked, v', p, q) =
      bind-done (mark_fd fd1 m v) (after_mark (fd0, fd1)) m (ok (server, fd)) w e in
    of_mark m v v' server fd fd0 fd1 marked p w q

-- Whatever the kernel answers, where `SeatServer::new` succeeds, its last call has set the flags
-- of the compositor's descriptor, with `FD_CLOEXEC` among them.
pub new-ClosesOnExec :
    (m : Machine) (w w' : World) (server : SeatServer) (fd : ℕ)
    → new m w ≡ (done (ok (server, fd)), w')
    → ClosesOnExec fd w'
unfolding new
new-ClosesOnExec m w w' server fd e =
    let (pair, v, p, q) =
      bind-done (create_socket_pair af_unix (sock_dgram ||| sock_cloexec) 0 m w) after_pair m
        (ok (server, fd)) w' e in
    of_pair m v w' server fd pair q
