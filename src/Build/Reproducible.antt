-- ===== src/Build/Reproducible.antt =====
-- The file that `main` of build.rs writes does not depend on the order of the hash maps.
use ginit.Base.{◌≡◌, refl, ap, List, Option, none, some, if◌then◌else◌}
use mathlib.Core.List.{Perm}
use ginit.Build.Str.{◌>>=◌}
use ginit.Build.Profile.{Entry}
use ginit.Build.Settings.{Host, read}
use ginit.Build.Libc.{get_from_username, getgrouplist, name_pointer}
use ginit.Build.Env.Sorting.{sway_env-Perm}
use ginit.Build.Script.{Inputs, inputs, write_file, config_rs, Written, out_cfg_file, main}

-- The host, with hash maps that are iterated in the order `order`.
abbrev pub with_order : Host → (List Entry → List Entry) → Host
with_order host order = record host { iterate = order }

-- The rest of `write_file`, behind the environment.
abbrev write_with : Host → Inputs → List Entry → Option Written
write_with host it env = do
  dir ← host.out_dir
  let file : Written = record {
    path = out_cfg_file dir;
    contents =
        config_rs it.system_path it.net_interfaces it.passwd it.user_groups env it.cfg.mounts;
  }
  if host.write file.path file.contents then some file else none

write_file-with_order :
    (host : Host) (order order' : List Entry → List Entry)
    → ((env : List Entry) → Perm (order env) (order' env))
    → (o : Option Inputs)
    → (o >>= write_file (with_order host order)) ≡ (o >>= write_file (with_order host order'))
unfolding write_file
write_file-with_order host order order' p none = refl
write_file-with_order host order order' p (some it) =
    ap (write_with host it) (sway_env-Perm _ _ _ _ it.passwd (p it.profile_env) (p it.cfg.ui.env))

-- Whatever the order in which the hash maps are iterated, the script writes the same file.
pub main-with_order :
    (host : Host) (order order' : List Entry → List Entry)
    → ((env : List Entry) → Perm (order env) (order' env))
    → main (with_order host order) ≡ main (with_order host order')
unfolding main inputs read get_from_username getgrouplist name_pointer
main-with_order host order order' p = write_file-with_order host order order' p (inputs host)
