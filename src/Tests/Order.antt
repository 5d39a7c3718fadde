-- ===== src/Tests/Order.antt =====
-- The requests of src/net.rs for one interface, of which the second is refused.
use ginit.Base.{
  ◌≡◌, refl, pos, negsuc, Bytes, [], ◌∷◌, none, some, zeros, ◌++◌, le_bytes, try_i32, as_i32,
  le_value, slice,
}
use ginit.Machine.{Machine, World, done, syscall}
use ginit.Config.{NetInterface}
use ginit.Linux.Calls.{read, write}
use ginit.Net.{
  NetlinkSocket, configure, next_seq, send_and_ack, ack_error, on_recv, after_scan, scan,
  on_payload, on_read_at, add_addr_to_interface, bring_interface_admin_up, address_of, admin_up_of,
  for_each,
}
use ginit.Net.Encode.{from_be_bytes, nlmsghdr, nlmsghdr_layout, nlmsgerr_layout}
use ginit.Net.Order.{plan}
use ginit.Net.Order.Setup.{Configured, configure-Configured}
use ginit.Tests.Script.{scripted, reads, returns, fresh}
use ginit.Layout.{struct, round_up, end_of, max_align}

abbrev ethernet : NetInterface
ethernet = record {
  index = 2;
  addr = some (from_be_bytes 192 168 1 26);
  gateway = some (from_be_bytes 192 168 1 254);
  broadcast = none;
}

-- An acknowledgement without an error.
abbrev acknowledgement : Bytes
acknowledgement = nlmsghdr 36 2 0 0 0 ++ (le_bytes 4 0 ++ zeros 16)

abbrev refusing : Machine
refusing = scripted (returns (pos 64) ∷ reads acknowledgement ∷ returns (negsuc 0) ∷ [])

abbrev route_socket : NetlinkSocket
route_socket = record { fd = 3; seq = 0 }

abbrev end : World
end = (configure 1 1 (ethernet ∷ []) route_socket refusing fresh).1

refused : configure 1 1 (ethernet ∷ []) route_socket refusing fresh ≡ (done (negsuc 0), end)
unfolding as_i32 configure for_each address_of admin_up_of add_addr_to_interface
    bring_interface_admin_up next_seq send_and_ack ack_error on_recv after_scan scan on_payload
    on_read_at read write syscall nlmsghdr nlmsghdr_layout nlmsgerr_layout le_bytes zeros try_i32
    le_value slice struct round_up end_of max_align
refused = refl

configure-Configured_example :
    Configured 1 1
      (plan (refusing.padding 1) (ethernet ∷ []))
      route_socket
      refusing
      fresh
      end
      (negsuc 0)
configure-Configured_example =
    configure-Configured 1 1 (ethernet ∷ []) route_socket refusing fresh end (negsuc 0) refused
