-- ===== src/Ends/Boot.antt =====
-- The start of src/main.rs up to the event loop.
use ginit.Base.{
  ℕ, ◌==◌, ◌&&◌, ◌≡◌, inl, inr, refl, ℤ, pos, is_neg, as_i32, try_u32, not, Bool, true, false,
  String, Bytes, List, [], ◌∷◌, Option, none, some, text,
}
use ginit.Machine.{World, Machine, M, pure, ◌>>◌}
use ginit.Config.{Config, Mount, make_dir, mount_each, mount_early, select}
use ginit.Linux.Calls.{open_file, dup2, close, symlink, mkdir, mount, chown, write, exit}
use ginit.Linux.Console.{stdout, stderr, with_value}
use ginit.Ui.{add_dri_render_permissions, set_backlight_brightness}
use ginit.Main.{
  when, redirect_stdout, link, create_dev_symlinks, run_event_loop, graceful_shutdown, start,
}
use ginit.Ends.{
  Speaks, Ends, bind-Ends, then-Ends, pure-Ends, if-Ends, syscall-Ends, call-Ends, writeln-Ends,
  warn_if_neg-Ends, opened-Ends,
}

when-Ends : (b : Bool) {p : M ℤ} → Ends p → Ends (when b p)
unfolding when
when-Ends true kp = bind-Ends kp (λ _. pure-Ends tt)
when-Ends false kp = pure-Ends tt

pub dup2-Ends : (old_fd new_fd : ℕ) → Ends (dup2 old_fd new_fd)
unfolding dup2
dup2-Ends old_fd new_fd = bind-Ends (syscall-Ends 33 _) (λ r. pure-Ends (as_i32 r.ret))

close-Ends : (fd : ℕ) → Ends (close fd)
unfolding close
close-Ends fd = bind-Ends (syscall-Ends 3 _) (λ r. pure-Ends (as_i32 r.ret))

redirect_stdout-Ends : Ends redirect_stdout
unfolding redirect_stdout open_file
redirect_stdout-Ends = call-Ends 2 _ (λ ret r. next (try_u32 ret))
  where
    next :
        (o : Option ℕ)
        → Ends (elim o [
          | none ↦ pure tt
          | some fd ↦ do
            when (not (fd == 1)) (dup2 fd 1)
            when (not (fd == 2)) (dup2 fd 2)
            when (not (fd == 1) && not (fd == 2)) (close fd)
        ])
    next none = pure-Ends tt
    next (some fd) = then-Ends (when-Ends (not (fd == 1)) (dup2-Ends fd 1)) (
        then-Ends (when-Ends (not (fd == 2)) (dup2-Ends fd 2))
          (when-Ends (not (fd == 1) && not (fd == 2)) (close-Ends fd)))

link-Ends : (old_name new_name message : String) → Ends (link old_name new_name message)
unfolding link symlink
link-Ends old_name new_name message = call-Ends 88 _ (λ ret r. warn_if_neg-Ends message ret)

create_dev_symlinks-Ends : Ends create_dev_symlinks
unfolding create_dev_symlinks
create_dev_symlinks-Ends =
    then-Ends (link-Ends "/proc/self/fd" "/dev/fd" "failed to symlink /dev/fd: ") (
      then-Ends (link-Ends "/proc/self/fd/0" "/dev/stdin" "failed to symlink /dev/stdin: ") (
        then-Ends (link-Ends "/proc/self/fd/1" "/dev/stdout" "failed to symlink /dev/stdout: ")
          (link-Ends "/proc/self/fd/2" "/dev/stderr" "failed to symlink /dev/stderr: ")))

make_dir-Ends : (mt : Mount) (mode : Option ℕ) → Ends (make_dir mt mode)
unfolding make_dir mkdir
make_dir-Ends mt none = pure-Ends (pos 0)
make_dir-Ends mt (some mode) = bind-Ends (syscall-Ends 83 _) (λ r. pure-Ends (as_i32 r.ret))

mount_each-Ends : (mounts : List Mount) → Ends (mount_each mounts)
unfolding mount_each mount
mount_each-Ends [] = pure-Ends (pos 0)
mount_each-Ends (mt ∷ mounts) = bind-Ends (make_dir-Ends mt mt.mkdir_mode) (λ made.
    if-Ends (is_neg made) (pure-Ends made)
      (call-Ends 165 _ (λ ret r. if-Ends (is_neg ret) (pure-Ends ret) (mount_each-Ends mounts))))

add_dri_render_permissions-Ends : (cfg : Config) → Ends (add_dri_render_permissions cfg)
unfolding add_dri_render_permissions chown
add_dri_render_permissions-Ends cfg =
    call-Ends 92 _ (λ ret r. warn_if_neg-Ends "failed to chown /dev/dri/renderD128: " ret)

write-Ends : (fd : ℕ) (s : Bytes) → Ends (write fd s)
unfolding write
write-Ends fd s = bind-Ends (syscall-Ends 1 _) (λ r. pure-Ends r.ret)

set_backlight_brightness-Ends : Ends set_backlight_brightness
unfolding set_backlight_brightness open_file
set_backlight_brightness-Ends = call-Ends 2 _ (λ fd r.
    opened-Ends fd r
      (writeln-Ends stderr (with_value "failed to open backlight brightness file: " fd) (inr refl))
      (λ n.
        bind-Ends (write-Ends n (text "70"))
          (λ ret. warn_if_neg-Ends "failed to write to backlight brightness file: " ret)))

-- Where the machine takes what is written to the standard streams, the start reaches the event
-- loop, whatever the kernel answers to its other calls; the shutdown and `exit` follow the loop.
pub start-event_loop :
    (m : Machine) (fuel : ℕ) (cfg : Config) (w : World)
    → Speaks m
    → (v : World) × (start fuel cfg m w
        ≡ (do run_event_loop fuel cfg; graceful_shutdown fuel; exit {A = Unit {0}} (pos 0)) m v)
unfolding start mount_early
start-event_loop m fuel cfg w s =
    let (a1, w1, e1) = redirect_stdout-Ends.run m w s in
    let (a2, w2, e2) = (writeln-Ends stdout (text "booting...\n" ∷ []) (inl refl)).run m w1 s in
    let (ret, w3, e3) = (mount_each-Ends (select true cfg.mounts)).run m w2 s in
    let (a4, w4, e4) = (warn_if_neg-Ends "failed to mount early FS: " ret).run m w3 s in
    let (a5, w5, e5) = create_dev_symlinks-Ends.run m w4 s in
    let (a6, w6, e6) = (add_dri_render_permissions-Ends cfg).run m w5 s in
    let (a7, w7, e7) = set_backlight_brightness-Ends.run m w6 s in
    (w7, rw (e1, e2, e3, e4, e5, e6, e7) refl)
