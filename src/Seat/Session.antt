-- ===== src/Seat/Session.antt =====
-- The requests that wait at the seat server of src/seat.rs, one after the other.
use ginit.Base.{
  ◌==◌, ℕ, zero, suc, ◌<◌, ◌^◌, ◌≡◌, refl, pos, negsuc, neg, try_i32, try_u32, as_u64, true, false,
  String, Bytes, List, [], ◌∷◌, ◌++◌, none, some, lt→ltb, length, overwrite, zeros, c_str, arith,
}
use ginit.Machine.{Machine, World, done}
use ginit.Linux.Consts.{msg_dontwait, eagain}
use ginit.Linux.Calls.{recvfrom, open_file, sendmsg}
use ginit.Linux.Console.{stderr, with_value, writeln, drop_fd, with_fd}
use ginit.Linux.Spawn.{ok}
use ginit.Seat.{
  SeatServer, rights_bytes, rights_ctrl_msg, reply, device_flags, open_device, on_datagram, on_recv,
  process_incoming_one, process_incoming,
}
use ginit.Seat.Requests.{process_incoming_one-datagram}

-- A byte with this control data is sent, or the failure to send it is written.
pub data Sent (m : Machine) (server : SeatServer) (control : Bytes) (report : String)
    : World → World → Type 0 where
  sent :
      {w w' : World} {n : ℕ}
      → sendmsg (pos server.fd) (0 ∷ []) control 0 m w ≡ (done (pos n), w')
      → Sent m server control report w w'
  unsent :
      {w w' w'' : World} {e : ℕ}
      → sendmsg (pos server.fd) (0 ∷ []) control 0 m w ≡ (done (negsuc e), w')
      → writeln stderr (with_value report (negsuc e)) m w' ≡ (done tt, w'')
      → Sent m server control report w w''

-- A request for the device at the path: it does not open, and a byte goes back alone; or it opens,
-- its descriptor goes back with the byte, and the server's own one is closed.
pub data Answered (m : Machine) (server : SeatServer) (path : Bytes) : World → World → Type 0 where
  refused :
      {w w' w'' : World} {e : ℕ}
      → open_file path device_flags 0 m w ≡ (done (negsuc e), w')
      → Sent m server [] "failed to send error message to Wayland compositor: " w' w''
      → Answered m server path w w''
  opened :
      {w w' w'' w''' : World} {dev : ℕ}
      → dev < 2 ^ 31
      → open_file path device_flags 0 m w ≡ (done (pos dev), w')
      → Sent m server
          (rights_bytes (m.padding 4) (rights_ctrl_msg dev))
          "failed to send device FD to Wayland compositor: "
          w'
          w''
      → drop_fd dev m w'' ≡ (done tt, w''')
      → Answered m server path w w'''

-- The datagrams that wait, and what becomes of each: one that is empty or does not end in a NUL is
-- dropped, every other one is a request.
pub data Served (m : Machine) (server : SeatServer) : World → List Bytes → World → Type 0 where
  none_waits :
      {w w' : World} {datagrams : List Bytes} {buf : Bytes}
      → datagrams ≡ []
      → recvfrom (pos server.fd) (zeros 48) msg_dontwait m w ≡ (done (neg eagain, buf), w')
      → Served m server w datagrams w'
  empty :
      {w w' w'' : World} {datagrams : List Bytes} {buf : Bytes}
      → recvfrom (pos server.fd) (zeros 48) msg_dontwait m w ≡ (done (pos 0, buf), w')
      → Served m server w' datagrams w''
      → Served m server w ([] ∷ datagrams) w''
  open_ended :
      {w w' w'' : World} {datagrams : List Bytes} (front : Bytes) (b : ℕ)
      → length front < 48
      → (b == 0) ≡ false
      → recvfrom (pos server.fd) (zeros 48) msg_dontwait m w
        ≡ (done (pos (suc (length front)), overwrite (zeros 48) (front ++ b ∷ [])), w')
      → Served m server w' datagrams w''
      → Served m server w ((front ++ b ∷ []) ∷ datagrams) w''
  request :
      {w w' w'' w''' : World} {datagrams : List Bytes} (front : Bytes)
      → length front < 48
      → recvfrom (pos server.fd) (zeros 48) msg_dontwait m w
        ≡ (done (pos (suc (length front)), overwrite (zeros 48) (front ++ 0 ∷ [])), w')
      → Answered m server (c_str (front ++ 0 ∷ [])) w' w''
      → Served m server w'' datagrams w'''
      → Served m server w ((front ++ 0 ∷ []) ∷ datagrams) w'''

module _ (m : Machine) (server : SeatServer) (is_i32 : server.fd < 2 ^ 31) where
  reply-none :
      {w w' : World}
      → Sent m server [] "failed to send error message to Wayland compositor: " w w'
      → reply server none m w ≡ (done tt, w')
  unfolding reply try_i32
  reply-none (sent e) = rw (lt→ltb server.fd (2 ^ 31) is_i32, e) refl
  reply-none (unsent e told) = rw (lt→ltb server.fd (2 ^ 31) is_i32, e, told) refl

  reply-some :
      {w w' : World} (dev : ℕ)
      → dev < 2 ^ 31
      → Sent m server
          (rights_bytes (m.padding 4) (rights_ctrl_msg dev))
          "failed to send device FD to Wayland compositor: "
          w
          w'
      → reply server (some dev) m w ≡ (done tt, w')
  unfolding reply try_i32 as_u64
  reply-some dev l (sent e) = rw (lt→ltb dev (2 ^ 31) l, lt→ltb server.fd (2 ^ 31) is_i32, e) refl
  reply-some dev l (unsent e told) =
      rw (lt→ltb dev (2 ^ 31) l, lt→ltb server.fd (2 ^ 31) is_i32, e, told) refl

  open_device-Answered :
      (path : Bytes) {w w' : World}
      → Answered m server path w w'
      → open_device server path m w ≡ (done (ok true), w')
  unfolding open_device with_fd try_u32
  open_device-Answered path (refused e s) = rw (e, reply-none s) refl
  open_device-Answered path (opened {dev = dev} l e s closed) =
      rw (e, lt→ltb dev (2 ^ 32) (omega arith), reply-some dev l s, closed) refl

  process_incoming_one-none_waits :
      (w w' : World) (buf : Bytes)
      → recvfrom (pos server.fd) (zeros 48) msg_dontwait m w ≡ (done (neg eagain, buf), w')
      → process_incoming_one server m w ≡ (done (ok false), w')
  unfolding process_incoming_one on_recv try_i32
  process_incoming_one-none_waits w w' buf e = rw (lt→ltb server.fd (2 ^ 31) is_i32, e) refl

  process_incoming_one-empty :
      (w w' : World) (buf : Bytes)
      → recvfrom (pos server.fd) (zeros 48) msg_dontwait m w ≡ (done (pos 0, buf), w')
      → process_incoming_one server m w ≡ (done (ok true), w')
  unfolding process_incoming_one on_recv on_datagram try_i32
  process_incoming_one-empty w w' buf e = rw (lt→ltb server.fd (2 ^ 31) is_i32, e) refl

-- Over a socket with an i32 for its number, and with fuel for the datagrams that wait, the server
-- comes to its end without an error, whether devices open and whether answers can be sent: every
-- datagram is taken in its order, one that is empty or does not end in a NUL is dropped, and every
-- other one gets one answer, with the device of its path where that opens.
pub process_incoming-Served :
    (m : Machine) (server : SeatServer) (fuel : ℕ) (w w' : World) (datagrams : List Bytes)
    → server.fd < 2 ^ 31
    → Served m server w datagrams w'
    → length datagrams < fuel
    → process_incoming fuel server m w ≡ (done (ok tt), w')
unfolding process_incoming
process_incoming-Served m server zero w w' datagrams f s l = absurd (omega arith)
process_incoming-Served m server (suc fuel) w w' _ f (none_waits z e) l =
    rw (process_incoming_one-none_waits m server f _ _ _ e) refl
process_incoming-Served m server (suc fuel) w w' _ f (empty {w' = v} {datagrams = ds} e s) l =
    rw (process_incoming_one-empty m server f _ _ _ e)
      (process_incoming-Served m server fuel v w' ds f s (omega arith))
process_incoming-Served m server (suc fuel) w w' _ f
      (open_ended {w' = v} {datagrams = ds} front b short ne e s) l =
    rw (process_incoming_one-datagram m server front b w v f short e, ne)
      (process_incoming-Served m server fuel v w' ds f s (omega arith))
process_incoming-Served m server (suc fuel) w w' _ f
      (request {w' = v} {w'' = u} {datagrams = ds} front short e a s) l =
    rw
      (
        process_incoming_one-datagram m server front 0 w v f short e,
        open_device-Answered m server f (c_str (front ++ 0 ∷ [])) a,
      )
      (process_incoming-Served m server fuel u w' ds f s (omega arith))
