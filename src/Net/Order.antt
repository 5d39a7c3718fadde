-- ===== src/Net/Order.antt =====
-- src/net.rs: the requests that setup_networking sends, and their sequence numbers.
pub mod Silence
pub mod One
pub mod Loops
pub mod Setup
use ginit.Base.{
  ℕ, ◌==◌, ◌≡◌, Bytes, List, [], ◌∷◌, ◌++◌, ◌+◌, ◌%◌, ◌^◌, ℤ, pos, Bool, true, false, is_neg,
  Option, none, some, if◌then◌else◌,
}
use mathlib.Core.Option.{get_or}
use ginit.Machine.{Arg, word, bytes, Event, World, Machine, done}
use ginit.Config.{NetInterface}
use ginit.Net.{NetlinkSocket, send_and_ack}
use ginit.Net.Encode.{add_addr_request, add_route_request, change_interface_request, from_be_bytes}

abbrev data_to : ℕ → List Arg → List Bytes
data_to fd (word n ∷ bytes s ∷ _) = if n == fd then s ∷ [] else []
data_to fd _ = []

abbrev pub sent_by : ℕ → Event → List Bytes
sent_by fd e = if e.call.num == 1 then data_to fd e.call.args else []

-- What the calls of a history write to a descriptor, the newest first.
unfoldable pub sent : ℕ → List Event → List Bytes
sent fd [] = []
sent fd (e ∷ before) = sent_by fd e ++ sent fd before

-- Requests that wait for their sequence numbers.
abbrev pub Requests : Type 0
Requests = List (ℕ → Bytes)

-- The requests with consecutive numbers, on top of what was sent before.
unfoldable pub numbered : ℕ → Requests → List Bytes → List Bytes
numbered seq [] before = before
numbered seq (r ∷ rs) before = numbered ((seq + 1) % 2 ^ 32) rs (r seq ∷ before)

-- The number behind those of the requests.
unfoldable pub number_after : ℕ → Requests → ℕ
number_after seq [] = seq
number_after seq (r ∷ rs) = number_after ((seq + 1) % 2 ^ 32) rs

abbrev pub address_request : NetInterface → Option ℕ → Requests
address_request i none = []
address_request i (some addr) =
    (λ seq. add_addr_request seq i.index addr (get_or i.broadcast (from_be_bytes 255 255 255 0)))
    ∷ []

abbrev pub link_request : Bytes → NetInterface → Requests
link_request padding i = (λ seq. change_interface_request padding seq i.index) ∷ []

abbrev pub route_request : NetInterface → Option ℕ → Requests
route_request i none = []
route_request i (some gateway) = (λ seq. add_route_request seq i.index gateway) ∷ []

-- The requests that one loop makes for the interfaces.
unfoldable pub for_all : (NetInterface → Requests) → List NetInterface → Requests
for_all f [] = []
for_all f (i ∷ interfaces) = f i ++ for_all f interfaces

-- All requests, in the order of the three loops.
unfoldable pub plan : Bytes → List NetInterface → Requests
plan padding interfaces =
    for_all (λ i. address_request i i.addr) interfaces
    ++ (for_all (link_request padding) interfaces
        ++ for_all (λ i. route_request i i.gateway) interfaces)

-- The socket with its next number.
abbrev pub advanced : NetlinkSocket → NetlinkSocket
advanced s = record s { seq = (s.seq + 1) % 2 ^ 32 }

-- The requests have been made one behind the other, each with the number of the socket: every
-- result but the last one is not negative, and the last one is `ret`.
pub data Acknowledged (reads messages : ℕ) (m : Machine)
    : NetlinkSocket → Requests → ℤ → World → World → Type 0 where
  all_made :
      {s : NetlinkSocket} {requests : Requests} {ret : ℤ} {w v : World}
      → requests ≡ []
      → is_neg ret ≡ false
      → w ≡ v
      → Acknowledged reads messages m s requests ret w v
  refused :
      {s : NetlinkSocket} {requests : Requests} {ret : ℤ} {w v : World} (r : ℕ → Bytes)
      → requests ≡ r ∷ []
      → is_neg ret ≡ true
      → send_and_ack reads messages (advanced s) (r s.seq) m w ≡ (done ret, v)
      → Acknowledged reads messages m s requests ret w v
  accepted :
      {s : NetlinkSocket} {requests : Requests} {ret a : ℤ} {w u v : World} (r : ℕ → Bytes)
      → is_neg a ≡ false
      → send_and_ack reads messages (advanced s) (r s.seq) m w ≡ (done a, u)
      → Acknowledged reads messages m (advanced s) requests ret u v
      → Acknowledged reads messages m s (r ∷ requests) ret w v

-- A part of a program that has sent some of these requests, all of them where its result is not
-- negative, and that leaves the socket with the next number.
pub record Progress (reads messages : ℕ) (m : Machine) (requests : Requests) (s s' : NetlinkSocket)
    (ret : ℤ) (w v : World) : Type 0 where
  pub made : Requests
  pub left : Requests
  pub splits : requests ≡ made ++ left
  pub whole : is_neg ret ≡ false → left ≡ []
  pub sends : sent s.fd v.history ≡ numbered s.seq made (sent s.fd w.history)
  pub socket : s' ≡ record s { seq = number_after s.seq made }
  pub answers : Acknowledged reads messages m s made ret w v
