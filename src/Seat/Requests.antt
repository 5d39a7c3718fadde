-- ===== src/Seat/Requests.antt =====
-- The requests that the seat server of src/seat.rs gets.
use ginit.Base.{
  if◌then◌else◌, ◌==◌, Bool-cases, inl, inr, ==_iff, ℕ, suc, ◌<◌, ◌^◌, ◌≡◌, refl, ◌∙◌, pos, try_i32,
  ◌==◌, true, Bytes, [], ◌∷◌, ◌++◌, some, get_elem?, lt→ltb, length, length-append, length-zeros,
  overwrite, drop, zeros, c_str, append_assoc, arith,
}
use ginit.Base.Slices.{overwrite-drop}
use ginit.Machine.{Machine, World, done}
use ginit.Linux.Consts.{msg_dontwait}
use ginit.Linux.Calls.{recvfrom}
use ginit.Linux.Spawn.{ok}
use ginit.Seat.{SeatServer, open_device, on_datagram, process_incoming_one}

get_elem?-append :
    (front rest : Bytes) (b : ℕ) → get_elem? (front ++ b ∷ rest) (length front) ≡ some b
get_elem?-append [] rest b = refl
get_elem?-append (x ∷ front) rest b = get_elem?-append front rest b

-- What follows a NUL is no part of the string.
c_str-ended : (front rest : Bytes) → c_str (front ++ 0 ∷ rest) ≡ c_str (front ++ 0 ∷ [])
unfolding c_str
c_str-ended [] rest = refl
c_str-ended (b ∷ front) rest = rw (c_str-ended front rest)

on_datagram-last :
    (server : SeatServer) (front rest : Bytes) (b : ℕ) (m : Machine) (w : World)
    → on_datagram server (suc (length front)) (front ++ b ∷ rest) m w
      ≡ (if b == 0 then open_device server (c_str (front ++ b ∷ [])) m w else (done (ok true), w))
unfolding on_datagram open_device
on_datagram-last server front rest b m w = elim (Bool-cases (b == 0)) [
  | inl ends ↦
      rw
        (
          on_datagram,
          get_elem?-append front rest b,
          ends,
          (==_iff b 0).0 ends,
          c_str-ended front rest,
        )
        refl
  | inr goes_on ↦ rw (on_datagram, get_elem?-append front rest b, goes_on) refl
]

-- Over a socket with an i32 for its number, a datagram of at most 48 bytes that does not end in a
-- NUL gets no answer; one that does is a request for the device at the path in front of its first
-- NUL.
pub process_incoming_one-datagram :
    (m : Machine) (server : SeatServer) (front : Bytes) (b : ℕ) (w w' : World)
    → server.fd < 2 ^ 31
    → length front < 48
    → recvfrom (pos server.fd) (zeros 48) msg_dontwait m w
      ≡ (done (pos (suc (length front)), overwrite (zeros 48) (front ++ b ∷ [])), w')
    → process_incoming_one server m w
      ≡ (if b == 0 then open_device server (c_str (front ++ b ∷ [])) m w' else (done (ok true), w'))
unfolding process_incoming_one try_i32
process_incoming_one-datagram m server front b w w' f l r =
    let a = length-append front (b ∷ []) in
    let rest = drop (length (front ++ b ∷ [])) (zeros 48) in
    let shape : overwrite (zeros 48) (front ++ b ∷ []) ≡ front ++ b ∷ rest =
      overwrite-drop (zeros 48) (front ++ b ∷ []) (omega (arith, length-zeros 48))
      ∙ append_assoc front (b ∷ []) rest in
    rw (lt→ltb server.fd (2 ^ 31) f, r, shape) (on_datagram-last server front rest b m w')
