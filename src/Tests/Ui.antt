-- ===== src/Tests/Ui.antt =====
-- The child of the user interface, and the mounts at concrete values.
use ginit.Base.{◌≡◌, refl, ap, pos, neg, text, List, [], ◌∷◌, none, some, true, try_u32, as_i32}
use ginit.Machine.{Machine, World, done}
use ginit.Machine.Chain.{Chain}
use ginit.Config.{Config, Mount, mount_each}
use ginit.Config.Mounting.{mount_calls, Follows, mount_each-Follows}
use ginit.Linux.Calls.{setgid, setgroups, setuid, chdir, dup2, close, mkdir, mount}
use ginit.Linux.Console.{warn_if_neg}
use ginit.Ui.{ui_process_pre_exec, move_fd, or_fail}
use ginit.Ui.Privileges.{dropping, ui_process_pre_exec-Chain}
use ginit.Tests.Script.{scripted, returns, fresh}

abbrev cfg : Config
cfg = record {
  net_interfaces = [];
  user_home = text "/home/greg";
  user_uid = 1000;
  user_gid = 1000;
  user_groups = 10 ∷ 1000 ∷ [];
  sway_envp = [];
  xdg_runtime_dir = [];
  mounts = [];
}

-- Every call succeeds.
abbrev obliging : Machine
obliging = scripted []

in_child : World
in_child = (ui_process_pre_exec cfg 5 obliging fresh).1

child_result : (ui_process_pre_exec cfg 5 obliging fresh).0 ≡ done true
unfolding ui_process_pre_exec move_fd or_fail try_u32 dup2 close warn_if_neg setgid setgroups setuid
    chdir as_i32
child_result = refl

ui_process_pre_exec-Chain_example : (v : World) × Chain (dropping cfg) v in_child
ui_process_pre_exec-Chain_example =
    ui_process_pre_exec-Chain obliging cfg 5 fresh in_child
      (unfold in_child in ap (λ o. (o, (ui_process_pre_exec cfg 5 obliging fresh).1)) child_result)

abbrev mounts : List Mount
mounts =
    record {
      dir = text "/proc";
      device = text "none";
      fs_type = text "proc";
      flags = 0;
      options = none;
      mkdir_mode = none;
      early = true;
    }
    ∷ record {
      dir = text "/dev/shm";
      device = text "none";
      fs_type = text "tmpfs";
      flags = 0;
      options = none;
      mkdir_mode = some 0o744;
      early = true;
    }
    ∷ []

-- The `mkdir` of the second mount fails.
abbrev refusing : Machine
refusing = scripted (returns (pos 0) ∷ returns (neg 13) ∷ [])

mounted : World
mounted = (mount_each mounts refusing fresh).1

mount_result : (mount_each mounts refusing fresh).0 ≡ done (neg 13)
unfolding mount_each mkdir mount as_i32
mount_result = refl

mount_each-Follows_example : Follows (mount_calls mounts) (neg 13) fresh mounted
mount_each-Follows_example =
    mount_each-Follows refusing mounts (neg 13) fresh mounted
      (unfold mounted in ap (λ o. (o, (mount_each mounts refusing fresh).1)) mount_result)
