-- ===== src/Net/Encode.antt =====
-- src/net.rs: the requests as the bytes of their `#[repr(C)]` structures.
use ginit.Base.{ℕ, ◌+◌, ◌*◌, ◌/◌, ◌%◌, ◌|||◌, Bytes, [], ◌∷◌, ◌++◌, le_bytes}
use ginit.Layout.{Layout, int, struct}
use ginit.Linux.Consts.{
  rtm_newaddr, rtm_newroute, rtm_setlink, nlm_f_request, nlm_f_create, nlm_f_excl, nlm_f_ack,
  af_inet, af_unspec, ifa_local, ifa_address, ifa_broadcast, rt_table_main, rtprot_boot,
  rt_scope_universe, rtn_unicast, rta_gateway, rta_oif, arphrd_none, iff_up,
}

-- `u32::from_be_bytes`
unfoldable pub from_be_bytes : ℕ → ℕ → ℕ → ℕ → ℕ
from_be_bytes a b c d = ((a * 256 + b) * 256 + c) * 256 + d

-- `u32::to_be` on a little-endian machine: the bytes change places.
unfoldable pub to_be : ℕ → ℕ
to_be x = from_be_bytes (x % 256) (x / 256 % 256) (x / 256 / 256 % 256) (x / 256 / 256 / 256 % 256)

-- `nlmsghdr`
unfoldable pub nlmsghdr_layout : Layout
unfolding struct
nlmsghdr_layout = struct (int 4 ∷ int 2 ∷ int 2 ∷ int 4 ∷ int 4 ∷ [])

unfoldable pub nlmsghdr : ℕ → ℕ → ℕ → ℕ → ℕ → Bytes
nlmsghdr nlmsg_len nlmsg_type nlmsg_flags nlmsg_seq nlmsg_pid =
    le_bytes 4 nlmsg_len
    ++ (le_bytes 2 nlmsg_type
        ++ (le_bytes 2 nlmsg_flags ++ (le_bytes 4 nlmsg_seq ++ le_bytes 4 nlmsg_pid)))

-- `nlmsgerr`
unfoldable pub nlmsgerr_layout : Layout
unfolding struct nlmsghdr_layout
nlmsgerr_layout = struct (int 4 ∷ nlmsghdr_layout ∷ [])

-- `ifaddrmsg`
unfoldable pub ifaddrmsg_layout : Layout
unfolding struct
ifaddrmsg_layout = struct (int 1 ∷ int 1 ∷ int 1 ∷ int 1 ∷ int 4 ∷ [])

unfoldable pub ifaddrmsg : ℕ → ℕ → ℕ → ℕ → ℕ → Bytes
ifaddrmsg family prefixlen flags scope index = family ∷ prefixlen ∷ flags ∷ scope ∷ le_bytes 4 index

-- `RtAttr<u32>`
unfoldable pub rt_attr_layout : Layout
unfolding struct
rt_attr_layout = struct (struct (int 2 ∷ int 2 ∷ []) ∷ int 4 ∷ [])

-- `RtAttr::new`
unfoldable pub rt_attr : ℕ → ℕ → Bytes
unfolding rt_attr_layout
rt_attr ty val = le_bytes 2 rt_attr_layout.size ++ (le_bytes 2 ty ++ le_bytes 4 val)

-- `AddAddrRequest`
unfoldable pub add_addr_request_layout : Layout
unfolding struct nlmsghdr_layout ifaddrmsg_layout rt_attr_layout
add_addr_request_layout =
    struct
      (nlmsghdr_layout ∷ ifaddrmsg_layout ∷ rt_attr_layout ∷ rt_attr_layout ∷ rt_attr_layout ∷ [])

-- The request of `add_addr_to_interface`.
unfoldable pub add_addr_request : ℕ → ℕ → ℕ → ℕ → Bytes
unfolding add_addr_request_layout nlmsghdr ifaddrmsg rt_attr to_be from_be_bytes
add_addr_request seq interface_index addr broadcast =
    nlmsghdr add_addr_request_layout.size rtm_newaddr
      (nlm_f_request ||| nlm_f_create ||| nlm_f_excl ||| nlm_f_ack) seq 0
    ++ (ifaddrmsg af_inet 24 0 0 interface_index
        ++ (rt_attr ifa_local (to_be addr)
            ++ (rt_attr ifa_address (to_be addr) ++ rt_attr ifa_broadcast (to_be broadcast))))

-- `rtmsg`
unfoldable pub rtmsg_layout : Layout
unfolding struct
rtmsg_layout = struct (int 1 ∷ int 1 ∷ int 1 ∷ int 1 ∷ int 1 ∷ int 1 ∷ int 1 ∷ int 1 ∷ int 4 ∷ [])

-- `AddRouteRequest`
unfoldable pub add_route_request_layout : Layout
unfolding struct nlmsghdr_layout rtmsg_layout rt_attr_layout
add_route_request_layout =
    struct (nlmsghdr_layout ∷ rtmsg_layout ∷ rt_attr_layout ∷ rt_attr_layout ∷ [])

-- The request of `add_route_to_interface`; the family is followed by the three lengths and the
-- service, the table, the protocol, the scope, the type and the flags.
unfoldable pub add_route_request : ℕ → ℕ → ℕ → Bytes
unfolding add_route_request_layout nlmsghdr rt_attr to_be from_be_bytes
add_route_request seq interface_index gateway =
    nlmsghdr add_route_request_layout.size rtm_newroute
      (nlm_f_request ||| nlm_f_create ||| nlm_f_excl ||| nlm_f_ack) seq 0
    ++ ((af_inet
          ∷ 0
          ∷ 0
          ∷ 0
          ∷ rt_table_main
          ∷ rtprot_boot
          ∷ rt_scope_universe
          ∷ rtn_unicast
          ∷ le_bytes 4 0)
        ++ (rt_attr rta_gateway (to_be gateway) ++ rt_attr rta_oif interface_index))

-- `ifinfomsg`
unfoldable pub ifinfomsg_layout : Layout
unfolding struct
ifinfomsg_layout = struct (int 1 ∷ int 2 ∷ int 4 ∷ int 4 ∷ int 4 ∷ [])

-- `ChangeInterfaceRequest`
unfoldable pub change_interface_request_layout : Layout
unfolding struct nlmsghdr_layout ifinfomsg_layout
change_interface_request_layout = struct (nlmsghdr_layout ∷ ifinfomsg_layout ∷ [])

-- The request of `bring_interface_admin_up`; behind the family stands one byte of padding.
unfoldable pub change_interface_request : Bytes → ℕ → ℕ → Bytes
unfolding change_interface_request_layout nlmsghdr
change_interface_request padding seq interface_index =
    nlmsghdr change_interface_request_layout.size rtm_setlink (nlm_f_request ||| nlm_f_ack) seq 0
    ++ ((af_unspec ∷ padding)
        ++ (le_bytes 2 arphrd_none
            ++ (le_bytes 4 interface_index ++ (le_bytes 4 iff_up ++ le_bytes 4 iff_up))))
