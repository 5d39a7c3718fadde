-- ===== src/Tests/Net.antt =====
-- src/net.rs at concrete requests and datagrams.
use ginit.Base.{
  ◌≡◌, refl, Bytes, pos, as_i32, [], ◌∷◌, ◌++◌, length, take, drop, le_bytes, le_value, zeros,
  arith,
}
use ginit.Machine.{Machine, World, done}
use ginit.Linux.Calls.{read}
use ginit.Linux.Consts.{ifa_local, ifa_address, ifa_broadcast, rta_gateway, rta_oif}
use ginit.Net.{scan, ack_error}
use ginit.Net.Encode.{
  add_addr_request, add_route_request, change_interface_request, from_be_bytes, nlmsghdr,
}
use ginit.Net.Messages.{Message, encode, encode_all, AreOther}
use ginit.Net.Messages.Errors.{Ack}
use ginit.Net.Acks.{Answers, answer, other, ack_error-Answers}
use ginit.Net.Memory.{IsInside, scan-IsInside}
use ginit.Net.Requests.{request-length, attributes, request-attributes}
use ginit.Tests.Script.{scripted, reads, fresh}

request-length_example :
    (length (add_addr_request 1 2 3 4) ≡ le_value (take 4 (add_addr_request 1 2 3 4)))
    × (length (add_route_request 1 2 3) ≡ le_value (take 4 (add_route_request 1 2 3)))
    × (length (change_interface_request (170 ∷ []) 1 2)
        ≡ le_value (take 4 (change_interface_request (170 ∷ []) 1 2)))
request-length_example = request-length 170 1 2 3 4

request-attributes_example :
    (attributes 4
        (drop 24 (add_addr_request 0 2 (from_be_bytes 192 168 1 20) (from_be_bytes 255 255 255 0)))
      ≡ (ifa_local, 192 ∷ 168 ∷ 1 ∷ 20 ∷ [])
        ∷ (ifa_address, 192 ∷ 168 ∷ 1 ∷ 20 ∷ [])
        ∷ (ifa_broadcast, 255 ∷ 255 ∷ 255 ∷ 0 ∷ [])
        ∷ [])
    × (attributes 4 (drop 28 (add_route_request 0 2 (from_be_bytes 192 168 1 20)))
        ≡ (rta_gateway, 192 ∷ 168 ∷ 1 ∷ 20 ∷ []) ∷ (rta_oif, le_bytes 4 2) ∷ [])
request-attributes_example =
    request-attributes 0 2 192 168 1 20 255 255 255 0 (omega arith) (omega arith) (omega arith)
      (omega arith) (omega arith) (omega arith) (omega arith) (omega arith)

-- The answer to a request for an interface: the error EPERM as an unsigned number, and all of the
-- request.
abbrev refusal : Ack
unfolding le_bytes zeros
refusal = record {
  message = record {
    ty = 2;
    flags = 0;
    seq = 0;
    pid = 0;
    payload = le_bytes 4 0xffffffff ++ zeros 32;
  };
  error = 0xffffffff;
  request = zeros 32;
  is_error = refl;
  carries = refl;
  has_header = omega arith;
  length_fits = omega arith;
  in_range = omega arith;
}

abbrev link_message : Message
unfolding zeros
link_message = record { ty = 16; flags = 0; seq = 0; pid = 0; payload = zeros 16 }

abbrev datagram : Bytes
datagram = encode_all (link_message ∷ []) ++ (encode refusal.message ++ [])

abbrev net_kernel : Machine
net_kernel = scripted (reads (encode_all (link_message ∷ [])) ∷ reads datagram ∷ [])

n1 : World
n1 = (read 3 (zeros 8192) net_kernel fresh).1

n2 : World
n2 = (read 3 (zeros 8192) net_kernel n1).1

are_other : AreOther (link_message ∷ [])
unfolding zeros
are_other = (((λ e. ground arith), omega arith, omega arith, refl), tt)

answered : Answers net_kernel 3 refusal fresh 2 n2
unfolding read n1 n2 encode_all encode
answered =
    other {w' = n1} (link_message ∷ []) are_other refl
      (unfold nlmsghdr le_bytes link_message zeros in omega arith) refl
      (answer (link_message ∷ []) [] are_other refl
        (unfold nlmsghdr le_bytes link_message refusal zeros in omega arith) refl refl)

ack_error-Answers_example :
    ack_error 2 513 3 net_kernel fresh ≡ (done (as_i32 (pos 0xffffffff)), n2)
unfolding refusal
ack_error-Answers_example =
    ack_error-Answers net_kernel 3 refusal 2 513 2 fresh n2 answered (omega arith) (omega arith)

scan-IsInside_example : IsInside (scan 3 (zeros 40) 20 0)
scan-IsInside_example = scan-IsInside 3 (zeros 40) 20 0 (unfold zeros in omega arith)
