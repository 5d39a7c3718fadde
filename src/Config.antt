-- ===== src/Config.antt =====
-- src/config.rs, and what build.rs generates for it: the machine's settings are a value, and the
-- two mount functions are the template of `format_mount_function` over the mounts of a list.
pub mod Mounting
use ginit.Base.{
  ℕ, ℤ, pos, is_neg, Bool, true, false, not, Bytes, List, [], ◌∷◌, Option, none, some,
  if◌then◌else◌,
}
use ginit.Machine.{M, pure, ◌>>=◌}
use ginit.Linux.Calls.{mkdir, mount}

pub record NetInterface : Type 0 where
  pub index : ℕ
  pub addr : Option ℕ
  pub gateway : Option ℕ
  pub broadcast : Option ℕ

-- Filesystem to mount at boot.
pub record Mount : Type 0 where
  pub dir : Bytes
  pub device : Bytes
  pub fs_type : Bytes
  pub flags : ℕ
  pub options : Option Bytes
  pub mkdir_mode : Option ℕ
  pub early : Bool

pub record Config : Type 0 where
  pub net_interfaces : List NetInterface
  pub user_home : Bytes
  pub user_uid : ℕ
  pub user_gid : ℕ
  pub user_groups : List ℕ
  pub sway_envp : List Bytes
  pub xdg_runtime_dir : Bytes
  pub mounts : List Mount

-- The lines of one mount: `mkdir`, if a mode is given.
unfoldable pub make_dir : Mount → Option ℕ → M ℤ
make_dir mt none = pure (pos 0)
make_dir mt (some mode) = mkdir mt.dir mode

-- The body of a generated function.
unfoldable pub mount_each : List Mount → M ℤ
unfolding make_dir
mount_each [] = pure (pos 0)
mount_each (mt ∷ mounts) = do
  made ← make_dir mt mt.mkdir_mode
  if is_neg made then pure made else (do
    ret ← mount mt.device mt.dir mt.fs_type mt.flags mt.options
    if is_neg ret then pure ret else mount_each mounts)

-- The mounts that are early, or those that are not.
unfoldable pub select : Bool → List Mount → List Mount
select wanted [] = []
select wanted (mt ∷ mounts) =
    let rest = select wanted mounts in
    if (if wanted then mt.early else not mt.early) then mt ∷ rest else rest

unfoldable pub mount_early : Config → M ℤ
unfolding mount_each select
mount_early cfg = mount_each (select true cfg.mounts)

unfoldable pub mount_late : Config → M ℤ
unfolding mount_each select
mount_late cfg = mount_each (select false cfg.mounts)
