-- ===== src/Main/Rounds.antt =====
-- The rounds of the loop of src/main.rs, with the signals and the requests that wait in each.
use ginit.Base.{
  ℕ, zero, suc, ◌<◌, ◌^◌, ◌|||◌, ◌≡◌, refl, pos, try_i32, Bool, true, false, List, [], ◌∷◌, Bytes,
  length, lt→ltb, arith, if◌then◌else◌,
}
use ginit.Machine.{Machine, World, done}
use ginit.Linux.Consts.{pollin, pollerr, pollnval}
use ginit.Linux.Calls.{poll}
use ginit.Seat.{SeatServer}
use ginit.Seat.Session.{Served, process_incoming-Served}
use ginit.Main.Loop.{goes_on, leaves, is_set, on_signal, on_seat, dispatch, round, event_loop}
use ginit.Main.Reaping.{Signals, Ended, on_signal-Ended}

-- What waits at the signalfd in a round: nothing, or signals with the children that have ended.
pub data Signalled (m : Machine) (fd ui fuel : ℕ) : Bool → World → Bool → World → Type 0 where
  no_signal : {w : World} → Signalled m fd ui fuel false w false w
  signal :
      {w v w' : World} {died : Bool} {n k : ℕ}
      → Signals m fd w n v
      → n < fuel
      → Ended m ui (pos 0) v k died w'
      → k < fuel
      → Signalled m fd ui fuel true w died w'

-- What waits at the socket of the seat server: nothing, or requests.
pub data Seated (m : Machine) (server : SeatServer) (fuel : ℕ) : Bool → World → World → Type 0 where
  no_request : {w : World} → Seated m server fuel false w w
  requests :
      {w w' : World} {datagrams : List Bytes}
      → Served m server w datagrams w'
      → length datagrams < fuel
      → Seated m server fuel true w w'

-- `poll` gives the two masks, without an error in them.
pub record Polled (m : Machine) (fd : ℕ) (server : SeatServer) (r0 r1 : ℕ) (w v : World)
    : Type 0 where
  pub ready : ℕ
  pub polls :
      poll ((pos fd, pollin) ∷ (pos server.fd, pollin) ∷ []) (pos 500) m w
      ≡ (done (pos ready, r0 ∷ r1 ∷ []), v)
  pub signalfd_is_well : is_set r0 (pollerr ||| pollnval) ≡ false
  pub seat_is_well : is_set r1 (pollerr ||| pollnval) ≡ false

-- The rounds up to that in which the process of the user interface has ended.
pub data Rounds (m : Machine) (fd ui fuel : ℕ) (server : SeatServer)
    : World → ℕ → World → Type 0 where
  last :
      {w v w' : World} {n r0 r1 : ℕ}
      → n ≡ 0
      → Polled m fd server r0 r1 w v
      → Signalled m fd ui fuel (is_set r0 pollin) v true w'
      → Rounds m fd ui fuel server w n w'
  served :
      {w v v' u w' : World} {n r0 r1 : ℕ}
      → Polled m fd server r0 r1 w v
      → Signalled m fd ui fuel (is_set r0 pollin) v false v'
      → Seated m server fuel (is_set r1 pollin) v' u
      → Rounds m fd ui fuel server u n w'
      → Rounds m fd ui fuel server w (suc n) w'

on_signal-Signalled :
    (m : Machine) (fd ui fuel : ℕ) (b : Bool) (w : World) (died : Bool) (w' : World)
    → Signalled m fd ui fuel b w died w'
    → on_signal fuel fd (pos ui) b m w ≡ (done (if died then leaves else goes_on), w')
unfolding on_signal
on_signal-Signalled m fd ui fuel _ w _ _ no_signal = refl
on_signal-Signalled m fd ui fuel _ w died w' (signal {v = v} {n = n} {k = k} s l e l') =
    on_signal-Ended m fd ui fuel n k w v w' died s l e l'

on_seat-Seated :
    (m : Machine) (server : SeatServer) (fuel : ℕ) (b : Bool) (w w' : World)
    → server.fd < 2 ^ 31
    → Seated m server fuel b w w'
    → on_seat fuel server b m w ≡ (done goes_on, w')
unfolding on_seat
on_seat-Seated m server fuel _ w _ f no_request = refl
on_seat-Seated m server fuel _ w w' f (requests {datagrams = ds} s l) =
    rw (process_incoming-Served m server fuel w w' ds f s l) refl

module _ (m : Machine) (fd ui fuel : ℕ) (server : SeatServer) (fd_is_i32 : fd < 2 ^ 31)
    (seat_is_i32 : server.fd < 2 ^ 31) where
  round-Polled :
      (r0 r1 : ℕ) (w v : World)
      → Polled m fd server r0 r1 w v
      → round fuel fd server (pos ui) m w ≡ dispatch fuel fd server (pos ui) r0 r1 m v
  unfolding round try_i32
  round-Polled r0 r1 w v p =
      rw (lt→ltb fd (2 ^ 31) fd_is_i32, lt→ltb server.fd (2 ^ 31) seat_is_i32, p.polls) refl

  dispatch-leaves :
      (r0 r1 : ℕ) (w v w' : World)
      → Polled m fd server r0 r1 w v
      → Signalled m fd ui fuel (is_set r0 pollin) v true w'
      → dispatch fuel fd server (pos ui) r0 r1 m v ≡ (done leaves, w')
  unfolding dispatch
  dispatch-leaves r0 r1 w v w' p s =
      rw (p.signalfd_is_well, p.seat_is_well, on_signal-Signalled m fd ui fuel _ v true w' s) refl

  dispatch-goes_on :
      (r0 r1 : ℕ) (w v v' u : World)
      → Polled m fd server r0 r1 w v
      → Signalled m fd ui fuel (is_set r0 pollin) v false v'
      → Seated m server fuel (is_set r1 pollin) v' u
      → dispatch fuel fd server (pos ui) r0 r1 m v ≡ (done goes_on, u)
  unfolding dispatch
  dispatch-goes_on r0 r1 w v v' u p s t =
      rw (p.signalfd_is_well, p.seat_is_well, on_signal-Signalled m fd ui fuel _ v false v' s)
        (on_seat-Seated m server fuel _ v' u seat_is_i32 t)

-- Over a signalfd and a socket with an i32 for their numbers, and with fuel for the rounds and for
-- what waits in each of them, the loop serves the signals and the requests of every round, and it
-- comes to its end in the first round in which the process of the user interface is among the
-- children that have ended, without a look at the requests of that round.
pub event_loop-Rounds :
    (m : Machine) (fd ui fuel : ℕ) (server : SeatServer) (rounds n : ℕ) (w w' : World)
    → fd < 2 ^ 31
    → server.fd < 2 ^ 31
    → Rounds m fd ui fuel server w n w'
    → n < rounds
    → event_loop rounds fuel fd server (pos ui) m w ≡ (done tt, w')
unfolding event_loop
event_loop-Rounds m fd ui fuel server zero n w w' f g r l = absurd (omega arith)
event_loop-Rounds m fd ui fuel server (suc rounds) _ w w' f g
      (last {v = v} {r0 = r0} {r1 = r1} z p s) l =
    rw
      (
        round-Polled m fd ui fuel server f g r0 r1 w v p,
        dispatch-leaves m fd ui fuel server f g r0 r1 w v w' p s,
      )
      refl
event_loop-Rounds m fd ui fuel server (suc rounds) _ w w' f g
      (served {v = v} {v' = v'} {u = u} {n = n} {r0 = r0} {r1 = r1} p s t r) l =
    rw
      (
        round-Polled m fd ui fuel server f g r0 r1 w v p,
        dispatch-goes_on m fd ui fuel server f g r0 r1 w v v' u p s t,
      )
      (event_loop-Rounds m fd ui fuel server rounds n u w' f g r (omega arith))
