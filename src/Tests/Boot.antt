-- ===== src/Tests/Boot.antt =====
-- The start of src/main.rs and the options of src/sysctl.rs where every call but a write fails.
use ginit.Base.{◌++◌, ◌==◌, ◌≡◌, refl, pos, neg, [], if◌then◌else◌}
use ginit.Machine.{Machine, done, World, ◌>>◌}
use ginit.Config.{Config}
use ginit.Linux.Calls.{exit}
use ginit.Main.{start, run_event_loop, graceful_shutdown}
use ginit.Ends.{Speaks}
use ginit.Sysctl.{options, apply_sysctl}
use ginit.Ends.Options.{files, newest_first, apply_sysctl-files}
use ginit.Ends.Boot.{start-event_loop}
use ginit.Tests.Script.{returns, fresh}

abbrev failing : Machine
failing = record {
  kernel = λ w call. if call.num == 1 then returns (pos 1) else returns (neg 5);
  panic_text = λ p. [];
  padding = λ n. [];
}

abbrev cfg : Config
cfg = record {
  net_interfaces = [];
  user_home = [];
  user_uid = 1000;
  user_gid = 1000;
  user_groups = [];
  sway_envp = [];
  xdg_runtime_dir = [];
  mounts = [];
}

speaks : Speaks failing
speaks w fd s d = refl

start-event_loop_example :
    (v : World) × (start 2 cfg failing fresh
      ≡ (do run_event_loop 2 cfg; graceful_shutdown 2; exit (pos 0)) failing v)
start-event_loop_example = start-event_loop failing 2 cfg fresh speaks

apply_sysctl-files_example :
    (v : World) × (apply_sysctl failing fresh ≡ (done tt, v))
    × (files v.history ≡ newest_first options ++ files fresh.history)
apply_sysctl-files_example = apply_sysctl-files failing fresh speaks
