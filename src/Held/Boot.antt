-- ===== src/Held/Boot.antt =====
-- Descriptors in src/main.rs, in the user interface of src/ui.rs and in the mounts of build.rs.
use ginit.Base.{
  ℕ, ◌==◌, ℤ, pos, is_neg, not, as_i32, try_u32, Bool, true, false, String, Bytes, List, [], ◌∷◌,
  Option, some, none, refl,
}
use ginit.Machine.{M}
use ginit.Config.{Config, Mount, make_dir, mount_each, mount_late, select}
use ginit.Linux.Calls.{mkdir, mount, chown, dup2, close, setgid, setgroups, setuid, chdir}
use ginit.Linux.Console.{stderr, with_value}
use ginit.Ui.{
  create_xdg_runtime_dir, seat_compositor_fd, move_fd, or_fail, ui_process_pre_exec,
  start_ui_process,
}
use ginit.Main.{late_init}
use ginit.Held.{Preserves, Quiet}
use ginit.Held.Rules.{bind-Keeps, syscall-Keeps, pure-Keeps, if-Keeps, then-Preserves}
use ginit.Held.Child.{
  bind-Quiet, call-Quiet, pure-Quiet, if-Quiet, writeln-Quiet, warn_if_neg-Quiet, unwrap-Quiet,
}
use ginit.Held.Console.{warn_if_neg-Preserves}
use ginit.Held.Files.{apply_sysctl-Preserves}
use ginit.Held.Network.{setup_networking-Preserves}
use ginit.Held.Spawn.{spawn_with_pre_exec-Preserves}

-- A call that has no part in the table.
mkdir-Preserves : (name : Bytes) (mode : ℕ) → Preserves (mkdir name mode)
unfolding mkdir
mkdir-Preserves name mode h =
    bind-Keeps (syscall-Keeps 83 _ h) (λ r. pure-Keeps (as_i32 r.ret) (λ _. h) refl)

chown-Preserves : (name : Bytes) (uid gid : ℕ) → Preserves (chown name uid gid)
unfolding chown
chown-Preserves name uid gid h =
    bind-Keeps (syscall-Keeps 92 _ h) (λ r. pure-Keeps (as_i32 r.ret) (λ _. h) refl)

mount-Preserves : (a b c : Bytes) (flags : ℕ) (o : Option Bytes) → Preserves (mount a b c flags o)
unfolding mount
mount-Preserves a b c flags o h =
    bind-Keeps (syscall-Keeps 165 _ h) (λ r. pure-Keeps (as_i32 r.ret) (λ _. h) refl)

make_dir-Preserves : (mt : Mount) (mode : Option ℕ) → Preserves (make_dir mt mode)
unfolding make_dir
make_dir-Preserves mt none h = pure-Keeps (pos 0) (λ _. h) refl
make_dir-Preserves mt (some mode) h = mkdir-Preserves mt.dir mode h

mount_each-Preserves : (mounts : List Mount) → Preserves (mount_each mounts)
unfolding mount_each
mount_each-Preserves [] h = pure-Keeps (pos 0) (λ _. h) refl
mount_each-Preserves (mt ∷ mounts) h = bind-Keeps (make_dir-Preserves mt mt.mkdir_mode h) (λ made.
    if-Keeps (is_neg made) (pure-Keeps made (λ _. h) refl) (
      bind-Keeps (mount-Preserves mt.device mt.dir mt.fs_type mt.flags mt.options h) (λ ret.
        if-Keeps (is_neg ret) (pure-Keeps ret (λ _. h) refl) (mount_each-Preserves mounts h))))

pub late_init-Preserves : (fuel : ℕ) (cfg : Config) → Preserves (late_init fuel cfg)
unfolding late_init mount_late
late_init-Preserves fuel cfg h = then-Preserves apply_sysctl-Preserves (
    bind-Keeps (mount_each-Preserves (select false cfg.mounts) h) (λ ret.
      then-Preserves (warn_if_neg-Preserves "failed to mount late FS: " ret) (
        bind-Keeps (setup_networking-Preserves fuel fuel cfg h)
          (λ ret'. warn_if_neg-Preserves "failed to setup networking: " ret' h))))

pub dup2-Quiet : (old_fd new_fd : ℕ) → Quiet (dup2 old_fd new_fd)
unfolding dup2
dup2-Quiet old_fd new_fd = call-Quiet 33 _ (λ r. as_i32 r.ret)

close-Quiet : (fd : ℕ) → Quiet (close fd)
unfolding close
close-Quiet fd = call-Quiet 3 _ (λ r. as_i32 r.ret)

-- The child of the user interface closes its own descriptor only.
move_fd-Quiet : (fd : ℕ) → Quiet (move_fd fd)
unfolding move_fd
move_fd-Quiet fd = if-Quiet (fd == seat_compositor_fd) (pure-Quiet true) (
    bind-Quiet (dup2-Quiet fd seat_compositor_fd) (λ ret.
      if-Quiet (is_neg ret)
        (bind-Quiet (writeln-Quiet stderr (with_value "failed to dup2 seat compositor FD: " ret))
          (λ _. pure-Quiet false))
        (bind-Quiet (close-Quiet fd) (λ ret'.
          bind-Quiet (warn_if_neg-Quiet "failed to close seat compositor FD: " ret')
            (λ _. pure-Quiet true)))))

or_fail-Quiet :
    (message : String) {step : M ℤ} {rest : M Bool}
    → Quiet step
    → Quiet rest
    → Quiet (or_fail message step rest)
unfolding or_fail
or_fail-Quiet message ks kr = bind-Quiet ks (λ ret.
    if-Quiet (is_neg ret)
      (bind-Quiet (writeln-Quiet stderr (with_value message ret)) (λ _. pure-Quiet false)) kr)

ui_process_pre_exec-Quiet : (cfg : Config) (fd : ℕ) → Quiet (ui_process_pre_exec cfg fd)
unfolding ui_process_pre_exec setgid setgroups setuid chdir
ui_process_pre_exec-Quiet cfg fd = bind-Quiet (unwrap-Quiet (try_u32 (pos fd))) (λ n.
    bind-Quiet (move_fd-Quiet n) (λ moved. if-Quiet (not moved) (pure-Quiet false) (
      or_fail-Quiet "failed to setgid: " (call-Quiet 106 _ (λ r. as_i32 r.ret)) (
        or_fail-Quiet "failed to setgroups: " (call-Quiet 116 _ (λ r. as_i32 r.ret)) (
          or_fail-Quiet "failed to setuid: " (call-Quiet 105 _ (λ r. as_i32 r.ret)) (
            or_fail-Quiet "failed to chdir: " (call-Quiet 80 _ (λ r. as_i32 r.ret))
              (pure-Quiet true)))))))

create_xdg_runtime_dir-Preserves : (cfg : Config) → Preserves (create_xdg_runtime_dir cfg)
unfolding create_xdg_runtime_dir
create_xdg_runtime_dir-Preserves cfg h =
    bind-Keeps (mkdir-Preserves cfg.xdg_runtime_dir 0o700 h) (λ ret.
      if-Keeps (is_neg ret) (pure-Keeps ret (λ _. h) refl)
        (chown-Preserves cfg.xdg_runtime_dir cfg.user_uid cfg.user_gid h))

pub start_ui_process-Preserves : (cfg : Config) (fd : ℕ) → Preserves (start_ui_process cfg fd)
unfolding start_ui_process
start_ui_process-Preserves cfg fd h = bind-Keeps (create_xdg_runtime_dir-Preserves cfg h) (λ ret.
    if-Keeps (is_neg ret) (pure-Keeps ret (λ _. h) refl)
      (spawn_with_pre_exec-Preserves _ _ _ _ (ui_process_pre_exec-Quiet cfg fd) h))
