-- ===== src/Build/Generated.antt =====
-- The generated config.rs as the compiler reads it: the values of its constants and the bodies of
-- its two functions.
pub mod Addresses
pub mod Interfaces
pub mod Lists
pub mod File
use ginit.Base.{ℕ, zero, suc, ◌^◌, Bytes, List, [], ◌∷◌, Option, none, some, text, length}
use ginit.Config.{NetInterface}
use ginit.Net.Encode.{from_be_bytes}
use ginit.Build.Str.{◌>>=◌, strip_prefix}
use ginit.Build.Reader.{read_c_literal, read_number}
use ginit.Build.Functions.{Function, read_function, type_of_ret}

-- Items up to a text that ends them.
unfoldable read_until :
    {A : Type 0} (end : Bytes) (item : Bytes → Option (A × Bytes)) (fuel : ℕ)
    → Bytes
    → Option (List A × Bytes)
read_until end item zero s = none
read_until end item (suc fuel) s = elim (strip_prefix end s) [
  | some rest ↦ some ([], rest)
  | none ↦ do
    (first, more) ← item s
    (others, rest) ← read_until end item fuel more
    some (first ∷ others, rest)
]

-- `None`, or `Some` of four octets.
unfoldable pub read_addr : Bytes → Option (Option ℕ × Bytes)
read_addr s = elim (strip_prefix (text "None") s) [
  | some rest ↦ some (none, rest)
  | none ↦ do
    s1 ← strip_prefix (text "Some(u32::from_be_bytes([") s
    (a, s2) ← read_number 256 s1
    s3 ← strip_prefix (text ", ") s2
    (b, s4) ← read_number 256 s3
    s5 ← strip_prefix (text ", ") s4
    (c, s6) ← read_number 256 s5
    s7 ← strip_prefix (text ", ") s6
    (d, s8) ← read_number 256 s7
    rest ← strip_prefix (text "]))") s8
    some (some (from_be_bytes a b c d), rest)
]

unfoldable read_interface : Bytes → Option (NetInterface × Bytes)
unfolding read_addr
read_interface s = do
  s1 ← strip_prefix (text "    NetInterface {\n        index: ") s
  (index, s2) ← read_number (2 ^ 32) s1
  s3 ← strip_prefix (text ",\n        addr: ") s2
  (addr, s4) ← read_addr s3
  s5 ← strip_prefix (text ",\n        gateway: ") s4
  (gateway, s6) ← read_addr s5
  s7 ← strip_prefix (text ",\n        broadcast: ") s6
  (broadcast, s8) ← read_addr s7
  rest ← strip_prefix (text ",\n    },\n") s8
  some (record { index = index; addr = addr; gateway = gateway; broadcast = broadcast }, rest)

unfoldable read_entry : Bytes → Option (Bytes × Bytes)
read_entry s = do
  s1 ← strip_prefix (text "    ") s
  (entry, s2) ← read_c_literal s1
  rest ← strip_prefix (text ",\n") s2
  some (entry, rest)

-- The numbers of an array behind the first one.
unfoldable read_more : (fuel : ℕ) → Bytes → Option (List ℕ × Bytes)
read_more zero s = none
read_more (suc fuel) s = elim (strip_prefix (text "]") s) [
  | some rest ↦ some ([], rest)
  | none ↦ do
    s1 ← strip_prefix (text ", ") s
    (n, s2) ← read_number (2 ^ 32) s1
    (others, rest) ← read_more fuel s2
    some (n ∷ others, rest)
]

-- An array of `u32` without its opening bracket.
unfoldable read_array : Bytes → Option (List ℕ × Bytes)
unfolding read_more
read_array s = elim (strip_prefix (text "]") s) [
  | some rest ↦ some ([], rest)
  | none ↦ do
    (n, s1) ← read_number (2 ^ 32) s
    (others, rest) ← read_more (length s1) s1
    some (n ∷ others, rest)
]

-- The constants, and the functions `mount_early` and `mount_late`.
pub record Program : Type 0 where
  pub system_path : Bytes
  pub net_interfaces : List NetInterface
  pub user_home : Bytes
  pub user_uid : ℕ
  pub user_gid : ℕ
  pub user_groups : List ℕ
  pub sway_envp : List Bytes
  pub xdg_runtime_dir : Bytes
  pub mount_early : Function
  pub mount_late : Function

abbrev pub comment : Bytes
comment =
    text
      "// This file was generated by the `build.rs` script. You should edit the\n// `config.toml` file instead of editing this file directly.\n\n"

-- What the text says, before its types are looked at.
unfoldable pub read_source : Bytes → Option Program
unfolding read_until read_interface read_entry read_array
read_source s = do
  s1 ← strip_prefix comment s
  s2 ← strip_prefix (text "pub const SYSTEM_PATH: *const u8 = ") s1
  (system_path, s3) ← read_c_literal s2
  s4 ← strip_prefix (text ";\n\npub const NET_INTERFACES: &[NetInterface] = &[\n") s3
  (net_interfaces, s5) ← read_until (text "]") read_interface (length s4) s4
  s6 ← strip_prefix (text ";\n\npub const USER_HOME: *const u8 = ") s5
  (user_home, s7) ← read_c_literal s6
  s8 ← strip_prefix (text ";\npub const USER_UID: u32 = ") s7
  (user_uid, s9) ← read_number (2 ^ 32) s8
  s10 ← strip_prefix (text ";\npub const USER_GID: u32 = ") s9
  (user_gid, s11) ← read_number (2 ^ 32) s10
  s12 ← strip_prefix (text ";\npub const USER_GROUPS: &[u32] = &[") s11
  (user_groups, s13) ← read_array s12
  s14 ← strip_prefix (text ";\n\npub const SWAY_ENVP: *const *const u8 = &[\n") s13
  (sway_envp, s15) ← read_until (text "    ptr::null(),\n]") read_entry (length s14) s14
  s16 ← strip_prefix (text " as *const *const u8;\n\npub const XDG_RUNTIME_DIR: *const u8 = ") s15
  (xdg_runtime_dir, s17) ← read_c_literal s16
  s18 ← strip_prefix (text ";\n\n") s17
  (mount_early, s19) ← read_function (text "mount_early") s18
  s20 ← strip_prefix (text "\n\n") s19
  (mount_late, s21) ← read_function (text "mount_late") s20
  end ← strip_prefix (text "\n") s21
  at_end ← (elim end [ [] ↦ some tt | b ∷ more ↦ none ])
  some (record {
    system_path = system_path;
    net_interfaces = net_interfaces;
    user_home = user_home;
    user_uid = user_uid;
    user_gid = user_gid;
    user_groups = user_groups;
    sway_envp = sway_envp;
    xdg_runtime_dir = xdg_runtime_dir;
    mount_early = mount_early;
    mount_late = mount_late;
  })

-- The types of both functions.
unfoldable pub type_check : Program → Option Program
type_check p = do
  early ← type_of_ret p.mount_early.declared p.mount_early.body
  late ← type_of_ret p.mount_late.declared p.mount_late.body
  some p

-- The program of a text that compiles.
unfoldable pub read_config_rs : Bytes → Option Program
unfolding read_source type_check
read_config_rs s = do p ← read_source s; type_check p
