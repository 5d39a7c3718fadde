-- ===== src/Tests/Build.antt =====
-- The build script on a small host.
use ginit.Base.{
  ℕ, zero, suc, ◌<◌, ◌≤◌, ◌≡◌, ◌↔◌, refl, pos, negsuc, true, false, List, [], ◌∷◌, ◌++◌, reverse,
  none, some, text, take, c_str, arith,
}
use mathlib.Core.List.{Perm, reverse_perm}
use mathlib.Core.List.Perm
use ginit.Config.{Mount, select}
use ginit.Build.Profile.{Entry}
use ginit.Build.Libc.{name_pointer, getgrouplist, get_from_username}
use ginit.Build.Libc.Names.{
  with_nul, ListsGroups, getgrouplist-ListsGroups, get_from_username-behind,
}
use ginit.Build.Script.{config_rs, main}
use ginit.Build.Functions.{type_of_ret}
use ginit.Build.Generated.{Program, read_source}
use ginit.Build.Generated.Interfaces.{
  interfaces_value, ReadsInterfaces, interfaces_value-ReadsInterfaces,
}
use ginit.Build.Generated.File.{PlainSettings, read_source-untyped}
use ginit.Build.Compiled.{Compiles, compiled_config, main-Compiles}
use ginit.Build.Reproducible.{with_order, main-with_order}
use ginit.Tests.Host.{dev, groups_reply, host, greg, found, interfaces, host_plain, readable}

main-Compiles_example : Compiles host (compiled_config found interfaces)
main-Compiles_example = main-Compiles host found interfaces readable

reversed : (env : List Entry) → Perm env (reverse env)
reversed env = Perm.symm (reverse_perm env)

main-with_order_example : main (with_order host (λ env. env)) ≡ main (with_order host reverse)
main-with_order_example = main-with_order host (λ env. env) reverse reversed

get_from_username-behind_example :
    get_from_username (record host { behind_user = text "ory" ++ 0 ∷ [] }) (text "greg")
    ≡ get_from_username
        (with_nul (record host { behind_user = text "ory" ++ 0 ∷ [] }))
        (text "greg" ++ c_str (text "ory" ++ 0 ∷ []))
unfolding text
get_from_username-behind_example =
    get_from_username-behind (record host { behind_user = text "ory" ++ 0 ∷ [] }) (text "greg")
      (refl, (refl, (refl, (refl, tt))))

lists_groups :
    ListsGroups (host.getgrouplist (name_pointer host (text "greg")) 1001) (1001 ∷ 27 ∷ [])
lists_groups = record { no_room = short; has_room = enough }
  where
    short :
        (room : ℕ)
        → room < 2
        → groups_reply (pos room)
          ≡ record { ret = negsuc 0; num = pos 2; stored = take room (1001 ∷ 27 ∷ []) }
    short zero l = refl
    short (suc zero) l = refl
    short (suc (suc room)) l = absurd (omega arith)

    enough :
        (room : ℕ)
        → 2 ≤ room
        → groups_reply (pos room) ≡ record { ret = pos 2; num = pos 2; stored = 1001 ∷ 27 ∷ [] }
    enough zero l = absurd (omega arith)
    enough (suc zero) l = absurd (omega arith)
    enough (suc (suc room)) l = refl

getgrouplist-ListsGroups_example : getgrouplist host (text "greg") 1001 ≡ some (1001 ∷ 27 ∷ [])
getgrouplist-ListsGroups_example =
    getgrouplist-ListsGroups host (text "greg") 1001 (1001 ∷ 27 ∷ []) lists_groups

early_plain :
    PlainSettings
      (text "/sbin:/bin")
      greg
      (1001 ∷ 27 ∷ [])
      []
      (select true (dev ∷ []))
      (select false (dev ∷ []))
unfolding select
early_plain = record {
  path_plain = host_plain.path_plain;
  home_plain = host_plain.home_plain;
  runtime_plain = host_plain.runtime_plain;
  uid_below = host_plain.uid_below;
  gid_below = host_plain.gid_below;
  groups_below = host_plain.groups_below;
  env_plain = tt;
  early_plain = host_plain.early_plain;
  late_plain = tt;
}

no_values : interfaces_value [] ≡ some []
unfolding interfaces_value
no_values = refl

abbrev no_interfaces : ReadsInterfaces [] []
no_interfaces = interfaces_value-ReadsInterfaces [] [] tt no_values

-- One early mount and no late one.
read_source-untyped_example :
    (p : Program) × (read_source (
        config_rs
          (text "/sbin:/bin")
          no_interfaces.printed_text
          greg
          (1001 ∷ 27 ∷ [])
          []
          (dev ∷ []))
      ≡ some p)
    × ((type_of_ret p.mount_early.declared p.mount_early.body ≡ none) ↔ (dev ∷ [] ≡ []))
    × ((type_of_ret p.mount_late.declared p.mount_late.body ≡ none) ↔ (◌≡◌ {A = List Mount} [] []))
unfolding select
read_source-untyped_example =
    read_source-untyped (text "/sbin:/bin") [] [] greg (1001 ∷ 27 ∷ []) [] (dev ∷ []) no_interfaces
      early_plain
