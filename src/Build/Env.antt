-- ===== src/Build/Env.antt =====
-- The environment of the compositor: `sway_env` in `main` of build.rs.
pub mod Order
pub mod Sorting
pub mod Lookup
use ginit.Base.{Bool, true, false, not, Bytes, List, [], ◌∷◌, ◌++◌, if◌then◌else◌, text, flatten}
use ginit.Linux.Console.{decimal}
use ginit.Build.Str.{str_eq, str_le}
use ginit.Build.Profile.{Entry}
use ginit.Build.Libc.{Passwd}

-- `a <= b` of two pairs
unfoldable pub entry_le : Entry → Entry → Bool
entry_le (k, v) (l, w) = if str_eq k l then str_le v w else str_le k l

unfoldable pub insert_sorted : Entry → List Entry → List Entry
insert_sorted e [] = e ∷ []
insert_sorted e (f ∷ env) =
    let rest = insert_sorted e env in if entry_le e f then e ∷ f ∷ env else f ∷ rest

-- `env.sort_unstable()`; entries that compare as equal are the same.
unfoldable pub sort_unstable : List Entry → List Entry
sort_unstable [] = []
sort_unstable (e ∷ env) = insert_sorted e (sort_unstable env)

-- `filter(|(k, _)| k != &"ROOTPATH")`
unfoldable pub without_rootpath : List Entry → List Entry
without_rootpath [] = []
without_rootpath ((k, v) ∷ env) =
    let rest = without_rootpath env in if str_eq k (text "ROOTPATH") then rest else (k, v) ∷ rest

unfoldable pub xdg_runtime_dir : Passwd → Bytes
xdg_runtime_dir passwd = text "/run/" ++ decimal passwd.uid

unfoldable pub pushed_env : Passwd → List Entry
pushed_env passwd =
    (text "HOME", passwd.dir)
    ∷ (text "MOZ_ENABLE_WAYLAND", text "1")
    ∷ (text "QT_QPA_PLATFORM", text "wayland")
    ∷ (text "WLR_DRM_DEVICES", text "/dev/dri/card0")
    ∷ (text "WLR_LIBINPUT_NO_DEVICES", text "1")
    ∷ (text "XDG_RUNTIME_DIR", xdg_runtime_dir passwd)
    ∷ (text "XDG_SEAT", text "seat0")
    ∷ (text "XDG_SESSION_DESKTOP", text "sway")
    ∷ (text "XDG_SESSION_TYPE", text "wayland")
    ∷ (text "_JAVA_AWT_WM_NONREPARENTING", text "1")
    ∷ []

-- Of the two maps in the order of their iteration.
unfoldable pub sway_env : List Entry → List Entry → Passwd → List Entry
sway_env profile_env ui_env passwd =
    sort_unstable (without_rootpath profile_env ++ (ui_env ++ pushed_env passwd))
