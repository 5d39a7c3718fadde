-- ===== src/Build/Generated/Interfaces.antt =====
-- The interfaces of the generated file, as they are read back.
use ginit.Base.{
  ℕ, zero, suc, ◌<◌, ◌≤◌, ◌^◌, ◌≡◌, refl, ap, ◌∙◌, Bytes, List, [], ◌∷◌, ◌++◌, append_assoc, Option,
  none, some, text, flatten, length, length-append, arith, Bool-cases, ==_iff, ◌==◌, inl, inr,
}
use ginit.Config.{NetInterface}
use ginit.Build.Str.{◌>>=◌, strip_prefix}
use ginit.Build.Addr.{is_digit, format_addr}
use ginit.Build.Settings.{NetInterfaceConfig}
use ginit.Build.Format.{interface_pieces, net_interface_text, net_interfaces_str}
use ginit.Build.Reader.Literals.{fill, flatten-fill, strip_prefix-append}
use ginit.Build.Reader.Numbers.{read_number-decimal}
use ginit.Build.Generated.{read_until, read_addr, read_interface}
use ginit.Build.Generated.Addresses.{addr_value, ReadsBack, format_addr-ReadsBack}
use ginit.Build.Generated.Lists.{read_until-step}

-- The interface that the program gets for one of the settings.
unfoldable pub interface_value : NetInterfaceConfig → Option NetInterface
unfolding addr_value
interface_value i = do
  addr ← addr_value i.addr
  gateway ← addr_value i.gateway
  broadcast ← addr_value i.broadcast
  some (record { index = i.index; addr = addr; gateway = gateway; broadcast = broadcast })

abbrev interface_of : ℕ → Option ℕ → Option ℕ → Option ℕ → NetInterface
interface_of index addr gateway broadcast = record {
  index = index;
  addr = addr;
  gateway = gateway;
  broadcast = broadcast;
}

read_interface-fill :
    (index : ℕ) (ta tg tb rest : Bytes) (addr gateway broadcast : Option ℕ)
    → index < 2 ^ 32
    → ((r : Bytes) → read_addr (ta ++ r) ≡ some (addr, r))
    → ((r : Bytes) → read_addr (tg ++ r) ≡ some (gateway, r))
    → ((r : Bytes) → read_addr (tb ++ r) ≡ some (broadcast, r))
    → read_interface (fill (interface_pieces index ta tg tb) rest)
      ≡ some (interface_of index addr gateway broadcast, rest)
unfolding read_interface text strip_prefix is_digit
read_interface-fill index ta tg tb rest addr gateway broadcast l ra rg rb =
    rw (read_number-decimal _ index _ l refl, ra _, rg _, rb _) refl

net_interface_text-ReadsBack :
    (i : NetInterfaceConfig) (addr gateway broadcast : Option ℕ)
    → i.index < 2 ^ 32
    → ReadsBack (format_addr i.addr) read_addr addr
    → ReadsBack (format_addr i.gateway) read_addr gateway
    → ReadsBack (format_addr i.broadcast) read_addr broadcast
    → ReadsBack (net_interface_text i) read_interface (interface_of i.index addr gateway broadcast)
unfolding net_interface_text
net_interface_text-ReadsBack i addr gateway broadcast l a g b = record {
  printed_text = flatten (interface_pieces i.index a.printed_text g.printed_text b.printed_text);
  prints = rw (a.prints, g.prints, b.prints) refl;
  reads = λ rest.
      ap read_interface
        (flatten-fill (interface_pieces i.index a.printed_text g.printed_text b.printed_text) rest)
      ∙ read_interface-fill i.index _ _ _ rest addr gateway broadcast l a.reads g.reads b.reads;
}

interface_value-ReadsBack :
    (i : NetInterfaceConfig) (v : NetInterface)
    → i.index < 2 ^ 32
    → interface_value i ≡ some v
    → ReadsBack (net_interface_text i) read_interface v
unfolding interface_value
interface_value-ReadsBack i v l e =
    go (addr_value i.addr) (addr_value i.gateway) (addr_value i.broadcast) e
      (format_addr-ReadsBack i.addr) (format_addr-ReadsBack i.gateway)
      (format_addr-ReadsBack i.broadcast)
  where
    go :
        (a g b : Option (Option ℕ))
        → (do
          addr ← a
          gateway ← g
          broadcast ← b
          some (interface_of i.index addr gateway broadcast))
          ≡ some v
        → ((x : Option ℕ) → a ≡ some x → ReadsBack (format_addr i.addr) read_addr x)
        → ((x : Option ℕ) → g ≡ some x → ReadsBack (format_addr i.gateway) read_addr x)
        → ((x : Option ℕ) → b ≡ some x → ReadsBack (format_addr i.broadcast) read_addr x)
        → ReadsBack (net_interface_text i) read_interface v
    go none g b e' p q r = absurd cc
    go (some x) none b e' p q r = absurd cc
    go (some x) (some y) none e' p q r = absurd cc
    go (some x) (some y) (some z) e' p q r =
        let same : interface_of i.index x y z ≡ v = cc in
        rw (← same) (net_interface_text-ReadsBack i x y z l (p x refl) (q y refl) (r z refl))

abbrev pub interfaces_end : Bytes
interfaces_end = text "]"

-- The interfaces of the program.
unfoldable pub interfaces_value : List NetInterfaceConfig → Option (List NetInterface)
unfolding interface_value
interfaces_value [] = some []
interfaces_value (i ∷ interfaces) = do
  first ← interface_value i
  rest ← interfaces_value interfaces
  some (first ∷ rest)

abbrev pub IndexesBelow : List NetInterfaceConfig → Type 0
IndexesBelow [] = Unit
IndexesBelow (i ∷ interfaces) = (i.index < 2 ^ 32) × IndexesBelow interfaces

-- The text of the interfaces is read back as their values.
pub record ReadsInterfaces (interfaces : List NetInterfaceConfig) (values : List NetInterface)
    : Type 0 where
  pub printed_text : Bytes
  pub prints : net_interfaces_str interfaces ≡ some printed_text
  pub long_enough : length interfaces ≤ length printed_text
  pub reads :
      (fuel : ℕ) (rest : Bytes)
      → length interfaces < fuel
      → read_until interfaces_end read_interface fuel (printed_text ++ (interfaces_end ++ rest))
        ≡ some (values, rest)

not_at_end :
    (s : Bytes) (r : NetInterface × Bytes)
    → read_interface s ≡ some r
    → strip_prefix interfaces_end s ≡ none
unfolding read_interface text strip_prefix
not_at_end [] r e = refl
not_at_end (b ∷ s) r e = elim (Bool-cases (b']' == b)) [
  | inl same ↦ let h = (==_iff b']' b).0 same in let e' = rw (← h) at e in absurd cc
  | inr other ↦ rw other refl
]

not_empty :
    (t : Bytes) (v : NetInterface)
    → ((rest : Bytes) → read_interface (t ++ rest) ≡ some (v, rest))
    → 1 ≤ length t
unfolding read_interface text strip_prefix
not_empty [] v h = let e = h [] in absurd cc
not_empty (b ∷ t) v h = omega arith

cons-ReadsInterfaces :
    (i : NetInterfaceConfig) (interfaces : List NetInterfaceConfig) (v : NetInterface)
    (values : List NetInterface)
    → ReadsBack (net_interface_text i) read_interface v
    → ReadsInterfaces interfaces values
    → ReadsInterfaces (i ∷ interfaces) (v ∷ values)
unfolding net_interfaces_str
cons-ReadsInterfaces i interfaces v values r rs = record {
  printed_text = r.printed_text ++ rs.printed_text;
  prints = rw (r.prints, rs.prints) refl;
  long_enough =
      rw (length-append r.printed_text rs.printed_text)
        (omega (arith, not_empty r.printed_text v r.reads, rs.long_enough));
  reads = reads_more;
}
  where
    reads_more :
        (fuel : ℕ) (rest : Bytes)
        → suc (length interfaces) < fuel
        → read_until interfaces_end read_interface fuel
            ((r.printed_text ++ rs.printed_text) ++ (interfaces_end ++ rest))
          ≡ some (v ∷ values, rest)
    reads_more zero rest l = absurd (omega arith)
    reads_more (suc fuel) rest l =
        rw (append_assoc r.printed_text rs.printed_text (interfaces_end ++ rest)) (
          read_until-step interfaces_end read_interface fuel _ _ rest v values
            (not_at_end _ _ (r.reads _)) (r.reads _) (rs.reads fuel rest (omega arith)))

nil-ReadsInterfaces : ReadsInterfaces [] []
unfolding net_interfaces_str read_until
nil-ReadsInterfaces = record {
  printed_text = [];
  prints = refl;
  long_enough = omega arith;
  reads = reads_end;
}
  where
    reads_end :
        (fuel : ℕ) (rest : Bytes)
        → 0 < fuel
        → read_until interfaces_end read_interface fuel (interfaces_end ++ rest) ≡ some ([], rest)
    reads_end zero rest l = absurd (omega arith)
    reads_end (suc fuel) rest l = rw (read_until, strip_prefix-append interfaces_end rest) refl

pub interfaces_value-ReadsInterfaces :
    (interfaces : List NetInterfaceConfig) (values : List NetInterface)
    → IndexesBelow interfaces
    → interfaces_value interfaces ≡ some values
    → ReadsInterfaces interfaces values
unfolding interfaces_value
interfaces_value-ReadsInterfaces [] values b e =
    let same : [] ≡ values = cc in rw (← same) nil-ReadsInterfaces
interfaces_value-ReadsInterfaces (i ∷ interfaces) values (l, b) e =
    go (interface_value i) (interfaces_value interfaces) e (λ x. interface_value-ReadsBack i x l)
      (λ xs. interfaces_value-ReadsInterfaces interfaces xs b)
  where
    go :
        (o : Option NetInterface) (os : Option (List NetInterface))
        → (do first ← o; rest ← os; some (first ∷ rest)) ≡ some values
        → ((x : NetInterface) → o ≡ some x → ReadsBack (net_interface_text i) read_interface x)
        → ((xs : List NetInterface) → os ≡ some xs → ReadsInterfaces interfaces xs)
        → ReadsInterfaces (i ∷ interfaces) values
    go none os e' p q = absurd cc
    go (some x) none e' p q = absurd cc
    go (some x) (some xs) e' p q =
        let same : x ∷ xs ≡ values = cc in
        rw (← same) (cons-ReadsInterfaces i interfaces x xs (p x refl) (q xs refl))
