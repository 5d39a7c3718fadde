-- ===== src/Net/Requests.antt =====
-- The requests of src/net.rs as a reader of netlink messages sees them.
use ginit.Base.{
  ℕ, zero, suc, ◌-◌, ◌<◌, ◌≡◌, refl, Bytes, List, [], ◌∷◌, ◌++◌, ◌^◌, length, take, drop, le_bytes,
  le_value, leb, ◌&&◌, if◌then◌else◌, arith,
}
use ginit.Layout.{round_up}
use ginit.Linux.Consts.{ifa_local, ifa_address, ifa_broadcast, rta_gateway, rta_oif}
use ginit.Net.Encode.{
  from_be_bytes, to_be, rt_attr_layout, add_addr_request, add_route_request,
  change_interface_request,
}

-- An address of four bytes goes over the wire as those bytes, in their order.
pub to_be-from_be_bytes :
    (a b c d : ℕ)
    → a < 256
    → b < 256
    → c < 256
    → d < 256
    → le_bytes 4 (to_be (from_be_bytes a b c d)) ≡ a ∷ b ∷ c ∷ d ∷ []
unfolding le_bytes to_be from_be_bytes
to_be-from_be_bytes a b c d ha hb hc hd = grind arith

-- The length in the header of each of the three requests is the number of its bytes.
pub request-length :
    (padding seq index addr other : ℕ)
    → (length (add_addr_request seq index addr other)
        ≡ le_value (take 4 (add_addr_request seq index addr other)))
      × (length (add_route_request seq index addr)
          ≡ le_value (take 4 (add_route_request seq index addr)))
      × (length (change_interface_request (padding ∷ []) seq index)
          ≡ le_value (take 4 (change_interface_request (padding ∷ []) seq index)))
unfolding le_bytes le_value add_addr_request add_route_request change_interface_request
request-length padding seq index addr other = (refl, refl, refl)

-- The attributes of a message, as `rtnetlink` lays them out: the length with that of the header,
-- the type, the value, and padding up to a multiple of four. A wrong length ends the list.
unfoldable pub attributes : ℕ → Bytes → List (ℕ × Bytes)
attributes zero bs = []
attributes (suc fuel) bs =
    let len : ℕ = le_value (take 2 bs) in
    let rest = attributes fuel (drop (round_up len 4) bs) in
    if leb 4 len && leb len (length bs)
    then (le_value (take 2 (drop 2 bs)), take (len - 4) (drop 4 bs)) ∷ rest
    else []

-- An attribute of eight bytes.
attribute : ℕ → Bytes → Bytes
unfolding rt_attr_layout
attribute ty value = le_bytes 2 rt_attr_layout.size ++ (le_bytes 2 ty ++ value)

add_addr_request-tail :
    (seq index addr broadcast : ℕ)
    → drop 24 (add_addr_request seq index addr broadcast)
      ≡ attribute ifa_local (le_bytes 4 (to_be addr))
        ++ (attribute ifa_address (le_bytes 4 (to_be addr))
            ++ attribute ifa_broadcast (le_bytes 4 (to_be broadcast)))
unfolding le_bytes add_addr_request attribute
add_addr_request-tail seq index addr broadcast = refl

add_route_request-tail :
    (seq index gateway : ℕ)
    → drop 28 (add_route_request seq index gateway)
      ≡ attribute rta_gateway (le_bytes 4 (to_be gateway)) ++ attribute rta_oif (le_bytes 4 index)
unfolding le_bytes add_route_request attribute
add_route_request-tail seq index gateway = refl

three_attributes :
    (t u v a b c d e f g h i j k l : ℕ)
    → t < 2 ^ 16
    → u < 2 ^ 16
    → v < 2 ^ 16
    → attributes 4 (
        attribute t (a ∷ b ∷ c ∷ d ∷ [])
        ++ (attribute u (e ∷ f ∷ g ∷ h ∷ []) ++ attribute v (i ∷ j ∷ k ∷ l ∷ [])))
      ≡ (t, a ∷ b ∷ c ∷ d ∷ []) ∷ (u, e ∷ f ∷ g ∷ h ∷ []) ∷ (v, i ∷ j ∷ k ∷ l ∷ []) ∷ []
unfolding attributes attribute le_bytes le_value
three_attributes t u v a b c d e f g h i j k l ht hu hv = grind arith

two_attributes :
    (t u a b c d e f g h : ℕ)
    → t < 2 ^ 16
    → u < 2 ^ 16
    → attributes 4 (attribute t (a ∷ b ∷ c ∷ d ∷ []) ++ attribute u (e ∷ f ∷ g ∷ h ∷ []))
      ≡ (t, a ∷ b ∷ c ∷ d ∷ []) ∷ (u, e ∷ f ∷ g ∷ h ∷ []) ∷ []
unfolding attributes attribute le_bytes le_value
two_attributes t u a b c d e f g h ht hu = grind arith

-- Where the addresses are of four bytes, a reader of the two requests finds the attributes, each
-- address with its bytes in the order of the dotted notation.
pub request-attributes :
    (seq index a b c d e f g h : ℕ)
    → a < 256
    → b < 256
    → c < 256
    → d < 256
    → e < 256
    → f < 256
    → g < 256
    → h < 256
    → (attributes 4
          (drop 24 (add_addr_request seq index (from_be_bytes a b c d) (from_be_bytes e f g h)))
        ≡ (ifa_local, a ∷ b ∷ c ∷ d ∷ [])
          ∷ (ifa_address, a ∷ b ∷ c ∷ d ∷ [])
          ∷ (ifa_broadcast, e ∷ f ∷ g ∷ h ∷ [])
          ∷ [])
      × (attributes 4 (drop 28 (add_route_request seq index (from_be_bytes a b c d)))
          ≡ (rta_gateway, a ∷ b ∷ c ∷ d ∷ []) ∷ (rta_oif, le_bytes 4 index) ∷ [])
unfolding le_bytes
request-attributes seq index a b c d e f g h ha hb hc hd he hf hg hh =
    let p = to_be-from_be_bytes a b c d ha hb hc hd in
    let q = to_be-from_be_bytes e f g h he hf hg hh in
    (
      rw (add_addr_request-tail seq index (from_be_bytes a b c d) (from_be_bytes e f g h), p, q)
          (three_attributes ifa_local ifa_address ifa_broadcast a b c d a b c d e f g h
            (omega arith) (omega arith) (omega arith)),
      rw (add_route_request-tail seq index (from_be_bytes a b c d), p)
          (two_attributes rta_gateway rta_oif a b c d _ _ _ _ (omega arith) (omega arith)),
    )
