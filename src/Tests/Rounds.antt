-- ===== src/Tests/Rounds.antt =====
-- The event loop of src/main.rs in three rounds: nothing, a request that is refused, and the end of
-- the user interface.
use ginit.Base.{ℕ, ◌≡◌, refl, pos, neg, [], ◌∷◌, ◌++◌, text, zeros, replicate, c_str, arith, as_i32}
use ginit.Machine.{Machine, World, Reply, space, done}
use ginit.Linux.Calls.{poll, read, wait4, recvfrom, open_file, sendmsg}
use ginit.Linux.Consts.{wnohang, pollin, msg_dontwait, eagain}
use ginit.Linux.Console.{stdout, with_value, writeln}
use ginit.Seat.{SeatServer, device_flags}
use ginit.Seat.Session.{sent, refused, none_waits, request}
use ginit.Main.Loop.{event_loop}
use ginit.Main.Reaping.{empty, more, ui_ended}
use ginit.Main.Rounds.{
  no_signal, signal, no_request, requests, Rounds, last, served, event_loop-Rounds,
}
use ginit.Tests.Script.{scripted, reads, returns, fresh}

abbrev polls : ℕ → ℕ → ℕ → Reply
polls n r0 r1 = record { ret = pos n; stored = []; ints = []; masks = r0 ∷ r1 ∷ [] }

abbrev kernel : Machine
kernel = scripted (
    polls 0 0 0
    ∷ polls 1 0 1
    ∷ reads (text "gone" ++ 0 ∷ [])
    ∷ returns (neg 2)
    ∷ returns (pos 1)
    ∷ returns (neg eagain)
    ∷ polls 1 1 0
    ∷ reads (replicate 128 1)
    ∷ returns (neg eagain)
    ∷ record { ret = pos 30; stored = []; ints = pos 256 ∷ []; masks = [] }
    ∷ [])

abbrev server : SeatServer
server = record { fd = 4 }

abbrev polled : World → World
polled w = (poll ((pos 3, pollin) ∷ (pos 4, pollin) ∷ []) (pos 500) kernel w).1

abbrev received : World → World
received w = (recvfrom (pos 4) (zeros 48) msg_dontwait kernel w).1

abbrev tried : World → World
tried w = (open_file (c_str (text "gone" ++ 0 ∷ [])) device_flags 0 kernel w).1

abbrev answered : World → World
answered w = (sendmsg (pos 4) (0 ∷ []) [] 0 kernel w).1

abbrev drained : World → World
drained w = (read 3 (zeros 128) kernel w).1

abbrev waited : World → World
waited w = (wait4 (neg 1) (space 4) wnohang kernel w).1

abbrev told : World → World
told w = (writeln stdout (with_value "UI process died: " (pos 256)) kernel w).1

abbrev first_world : World
first_world = polled fresh

abbrev second_world : World
second_world = received (answered (tried (received (polled first_world))))

abbrev signalled_world : World
signalled_world = drained (drained (polled second_world))

abbrev last_world : World
last_world = told (waited signalled_world)

rounds : Rounds kernel 3 30 4 server fresh 2 last_world
unfolding poll recvfrom open_file sendmsg read wait4 writeln with_value as_i32 text zeros
rounds =
    served {r0 = 0} {r1 = 0}
      (record { ready = 0; polls = refl; signalfd_is_well = refl; seat_is_well = refl }) no_signal
      no_request
      (served {r0 = 0} {r1 = 1}
        (record { ready = 1; polls = refl; signalfd_is_well = refl; seat_is_well = refl }) no_signal
        (requests
          (request (text "gone") (omega arith) refl (refused refl (sent refl))
            (none_waits refl refl))
          (omega arith))
        (last {r0 = 1} {r1 = 0} refl
          (record { ready = 1; polls = refl; signalfd_is_well = refl; seat_is_well = refl })
          (signal (more refl (empty refl refl)) (omega arith) (ui_ended refl refl refl refl)
            (omega arith))))

event_loop-Rounds_example : event_loop 3 4 3 server (pos 30) kernel fresh ≡ (done tt, last_world)
event_loop-Rounds_example =
    event_loop-Rounds kernel 3 30 4 server 3 2 fresh last_world (omega arith) (omega arith) rounds
      (omega arith)
