-- ===== src/Ui.antt =====
-- src/ui.rs: the user interface's process.
pub mod Privileges
use ginit.Base.{
  ℕ, ◌==◌, String, ℤ, pos, is_neg, try_u32, Bool, true, false, not, [], ◌∷◌, text, if◌then◌else◌,
}
use ginit.Machine.{M, pure, ◌>>=◌, ◌>>◌}
use ginit.Config.{Config}
use ginit.Linux.Consts.{o_wronly}
use ginit.Linux.Calls.{
  mkdir, chown, dup2, close, setgid, setgroups, setuid, chdir, open_file, write,
}
use ginit.Linux.Console.{stderr, with_value, writeln, warn_if_neg, unwrap, with_fd}
use ginit.Linux.Spawn.{spawn_with_pre_exec}

abbrev pub seat_compositor_fd : ℕ
seat_compositor_fd = 3

unfoldable pub create_xdg_runtime_dir : Config → M ℤ
create_xdg_runtime_dir cfg = do
  ret ← mkdir cfg.xdg_runtime_dir 0o700
  if is_neg ret then pure ret else chown cfg.xdg_runtime_dir cfg.user_uid cfg.user_gid

-- A step of `ui_process_pre_exec`: its error is written and ends the function with `false`.
unfoldable pub or_fail : String → M ℤ → M Bool → M Bool
or_fail message step rest = do
  ret ← step
  if is_neg ret then (do writeln stderr (with_value message ret); pure false) else rest

-- The descriptor goes to number 3.
unfoldable pub move_fd : ℕ → M Bool
move_fd fd = if fd == seat_compositor_fd then pure true else (do
  ret ← dup2 fd seat_compositor_fd
  if is_neg ret
      then (do writeln stderr (with_value "failed to dup2 seat compositor FD: " ret); pure false)
      else (do ret' ← close fd; warn_if_neg "failed to close seat compositor FD: " ret'; pure true))

unfoldable pub ui_process_pre_exec : Config → ℕ → M Bool
unfolding move_fd or_fail
ui_process_pre_exec cfg data' = do
  fd ← unwrap (try_u32 (pos data'))
  moved ← move_fd fd
  if not moved
      then pure false
      else or_fail "failed to setgid: " (setgid cfg.user_gid) (
          or_fail "failed to setgroups: " (setgroups cfg.user_groups) (
            or_fail "failed to setuid: " (setuid cfg.user_uid)
              (or_fail "failed to chdir: " (chdir cfg.user_home) (pure true))))

unfoldable pub add_dri_render_permissions : Config → M (Unit {0})
add_dri_render_permissions cfg = do
  ret ← chown (text "/dev/dri/renderD128") cfg.user_uid cfg.user_gid
  warn_if_neg "failed to chown /dev/dri/renderD128: " ret

unfoldable pub set_backlight_brightness : M (Unit {0})
set_backlight_brightness = do
  fd ← open_file (text "/sys/class/backlight/nv_backlight/brightness") o_wronly 0
  if is_neg fd
      then writeln stderr (with_value "failed to open backlight brightness file: " fd)
      else (do
        n ← unwrap (try_u32 fd)
        with_fd n (do
          ret ← write n (text "70")
          warn_if_neg "failed to write to backlight brightness file: " ret))

unfoldable pub start_ui_process : Config → ℕ → M ℤ
unfolding create_xdg_runtime_dir
start_ui_process cfg compositor_fd = do
  ret ← create_xdg_runtime_dir cfg
  if is_neg ret
      then pure ret
      else spawn_with_pre_exec (text "/usr/bin/sway") (text "/usr/bin/sway" ∷ []) cfg.sway_envp
          (ui_process_pre_exec cfg compositor_fd)
