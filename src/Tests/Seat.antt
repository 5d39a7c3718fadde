-- ===== src/Tests/Seat.antt =====
-- src/seat.rs at concrete sockets and requests.
use ginit.Base.{
  if◌then◌else◌, ◌==◌, as_i32, try_u32, ◌≡◌, refl, pos, neg, Bytes, List, [], ◌∷◌, ◌++◌, text, true,
  c_str, le_value, zeros, arith,
}
use ginit.Machine.{Machine, World, done}
use ginit.Linux.Spawn.{ok, create_socket_pair}
use ginit.Linux.Consts.{msg_dontwait, eagain}
use ginit.Linux.Calls.{recvfrom, fcntl, open_file, close, sendmsg}
use ginit.Linux.Console.{drop_fd}
use ginit.Seat
use ginit.Seat.{
  SeatServer, new, device_flags, open_device, process_incoming_one, process_incoming, rights_bytes,
  rights_ctrl_msg,
}
use ginit.Seat.Flags.{ClosesOnExec, new-ClosesOnExec}
use ginit.Seat.Requests.{process_incoming_one-datagram}
use ginit.Seat.Session.{
  sent, refused, opened, Served, none_waits, open_ended, request, process_incoming-Served,
}
use ginit.Seat.Rights.{descriptors, descriptors-rights_bytes}
use ginit.Tests.Script.{scripted, reads, returns, fresh}

-- The pair has the descriptors 4 and 5.
abbrev pair_kernel : Machine
pair_kernel = scripted (
    record { ret = pos 0; stored = []; ints = pos 4 ∷ pos 5 ∷ []; masks = [] }
    ∷ returns (pos 1)
    ∷ [])

last_world : World
unfolding Seat.new
last_world = (new pair_kernel fresh).1

new-ClosesOnExec_example : ClosesOnExec 5 last_world
unfolding create_socket_pair as_i32 try_u32 fcntl
new-ClosesOnExec_example =
    new-ClosesOnExec pair_kernel fresh last_world (record { fd = 4 }) 5
      (unfold Seat.new last_world in refl)

descriptors-rights_bytes_example :
    descriptors (rights_bytes (1 ∷ 2 ∷ 0 ∷ 0 ∷ []) (rights_ctrl_msg 7))
    ≡ 7 ∷ le_value (1 ∷ 2 ∷ 0 ∷ 0 ∷ []) ∷ []
descriptors-rights_bytes_example = descriptors-rights_bytes 7 1 2 0 0 (omega arith)

abbrev request_kernel : Machine
request_kernel = scripted (reads (text "/dev/dri/card0" ++ 0 ∷ []) ∷ [])

asked : World
unfolding recvfrom text zeros
asked = (recvfrom (pos 4) (zeros 48) msg_dontwait request_kernel fresh).1

process_incoming_one-datagram_example :
    process_incoming_one (record { fd = 4 }) request_kernel fresh ≡ (
      if 0 == 0
      then open_device
          (record { fd = 4 })
          (c_str (text "/dev/dri/card0" ++ 0 ∷ []))
          request_kernel
          asked
      else (done (ok true), asked))
process_incoming_one-datagram_example =
    process_incoming_one-datagram request_kernel (record { fd = 4 }) (text "/dev/dri/card0") 0 fresh
      asked (omega arith) (unfold text in omega arith) (unfold recvfrom asked text zeros in refl)

-- A datagram without a NUL, a request that is refused, and one that is granted.
abbrev session_kernel : Machine
session_kernel = scripted (
    reads (text "card")
    ∷ reads (text "gone" ++ 0 ∷ [])
    ∷ returns (neg 2)
    ∷ returns (pos 1)
    ∷ reads (text "card" ++ 0 ∷ [])
    ∷ returns (pos 7)
    ∷ returns (pos 1)
    ∷ returns (pos 0)
    ∷ returns (neg eagain)
    ∷ [])

abbrev session_server : SeatServer
session_server = record { fd = 4 }

abbrev received : World → World
received w = (recvfrom (pos 4) (zeros 48) msg_dontwait session_kernel w).1

abbrev tried : World → World
tried w = (open_file (c_str (text "gone" ++ 0 ∷ [])) device_flags 0 session_kernel w).1

abbrev found : World → World
found w = (open_file (c_str (text "card" ++ 0 ∷ [])) device_flags 0 session_kernel w).1

abbrev answered : Bytes → World → World
answered control w = (sendmsg (pos 4) (0 ∷ []) control 0 session_kernel w).1

abbrev granted : Bytes
granted = rights_bytes (session_kernel.padding 4) (rights_ctrl_msg 7)

abbrev refused_world : World
refused_world = answered [] (tried (received (received fresh)))

abbrev closed_world : World
closed_world = (drop_fd 7 session_kernel (answered granted (found (received refused_world)))).1

abbrev datagrams : List Bytes
datagrams = (text "car" ++ b'd' ∷ []) ∷ (text "gone" ++ 0 ∷ []) ∷ (text "card" ++ 0 ∷ []) ∷ []

session : Served session_kernel session_server fresh datagrams (received closed_world)
unfolding recvfrom open_file sendmsg drop_fd close text zeros as_i32
session = open_ended (text "car") b'd' (omega arith) refl refl (
    request (text "gone") (omega arith) refl (refused refl (sent refl)) (
      request (text "card") (omega arith) refl (opened (omega arith) refl (sent refl) refl)
        (none_waits refl refl)))

process_incoming-Served_example :
    process_incoming 4 session_server session_kernel fresh ≡ (done (ok tt), received closed_world)
process_incoming-Served_example =
    process_incoming-Served session_kernel session_server 4 fresh (received closed_world) datagrams
      (omega arith) session (omega arith)
