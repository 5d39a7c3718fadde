-- ===== src/Build/Format.antt =====
-- The text of the generated file: `format_mount_function` and the templates in `main` of
-- build.rs.
use ginit.Base.{ℕ, Bytes, List, [], ◌∷◌, ◌++◌, Option, none, some, text, flatten}
use ginit.Linux.Console.{decimal}
use ginit.Config.{Mount}
use ginit.Build.Str.{◌>>=◌}
use ginit.Build.Addr.{format_addr}
use ginit.Build.Profile.{Entry}
use ginit.Build.Settings.{NetInterfaceConfig}

-- `b\"{}\\0\" as *const u8` in a template; the argument goes into it as it is.
unfoldable pub c_literal : Bytes → Bytes
c_literal s = text "b\"" ++ (s ++ text "\\0\" as *const u8")

-- `if ret < 0 {{\n return ret;\n }}\n` in a template
unfoldable pub return_error : Bytes
return_error = text "        if ret < 0 {\n            return ret;\n        }\n"

abbrev pub mkdir_pieces : Bytes → ℕ → List Bytes
mkdir_pieces dir mode =
    text "        ret = linux::mkdir("
    ∷ c_literal dir
    ∷ text ", "
    ∷ decimal mode
    ∷ text ");\n"
    ∷ return_error
    ∷ []

unfoldable pub mkdir_text : Bytes → Option ℕ → Bytes
mkdir_text dir none = []
mkdir_text dir (some mode) = flatten (mkdir_pieces dir mode)

unfoldable pub data_text : Option Bytes → Bytes
data_text none = text "ptr::null()"
data_text (some d) = c_literal d

abbrev pub mount_pieces : Mount → List Bytes
mount_pieces m =
    mkdir_text m.dir m.mkdir_mode
    ∷ text "        ret = linux::mount("
    ∷ c_literal m.device
    ∷ text ", "
    ∷ c_literal m.dir
    ∷ text ", "
    ∷ c_literal m.fs_type
    ∷ text ", "
    ∷ decimal m.flags
    ∷ text ", "
    ∷ data_text m.options
    ∷ text ");\n"
    ∷ return_error
    ∷ []

unfoldable pub mount_text : Mount → Bytes
mount_text m = flatten (mount_pieces m)

unfoldable pub mounts_text : List Mount → Bytes
mounts_text [] = []
mounts_text (m ∷ mounts) = mount_text m ++ mounts_text mounts

abbrev pub function_pieces : Bytes → Bytes → List Bytes
function_pieces fn_name body =
    text "pub fn "
    ∷ fn_name
    ∷ text "() -> i32 {\n    #[allow(unused)]\n    let mut ret;\n    unsafe {\n"
    ∷ body
    ∷ text "    }\n    0\n}"
    ∷ []

unfoldable pub format_mount_function : Bytes → List Mount → Bytes
format_mount_function fn_name mounts = flatten (function_pieces fn_name (mounts_text mounts))

abbrev pub interface_pieces : ℕ → Bytes → Bytes → Bytes → List Bytes
interface_pieces index addr gateway broadcast =
    text "    NetInterface {\n        index: "
    ∷ decimal index
    ∷ text ",\n        addr: "
    ∷ addr
    ∷ text ",\n        gateway: "
    ∷ gateway
    ∷ text ",\n        broadcast: "
    ∷ broadcast
    ∷ text ",\n    },\n"
    ∷ []

unfoldable pub net_interface_text : NetInterfaceConfig → Option Bytes
net_interface_text i = do
  addr ← format_addr i.addr
  gateway ← format_addr i.gateway
  broadcast ← format_addr i.broadcast
  some (flatten (interface_pieces i.index addr gateway broadcast))

unfoldable pub net_interfaces_str : List NetInterfaceConfig → Option Bytes
net_interfaces_str [] = some []
net_interfaces_str (i ∷ interfaces) = do
  first ← net_interface_text i
  rest ← net_interfaces_str interfaces
  some (first ++ rest)

-- The numbers with ", " between them.
unfoldable pub user_groups_str : List ℕ → Bytes
user_groups_str [] = []
user_groups_str (g ∷ []) = decimal g
user_groups_str (g ∷ h ∷ groups) = decimal g ++ (text ", " ++ user_groups_str (h ∷ groups))

abbrev pub entry_pieces : Bytes → List Bytes
entry_pieces entry = text "    " ∷ c_literal entry ∷ text ",\n" ∷ []

unfoldable pub sway_envp_str : List Entry → Bytes
sway_envp_str [] = []
sway_envp_str ((k, v) ∷ env) = flatten (entry_pieces (k ++ (text "=" ++ v))) ++ sway_envp_str env
