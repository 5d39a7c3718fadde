-- ===== src/Linux/Spawn.antt =====
-- src/linux.rs: `create_socket_pair`, `clone` and the functions that spawn a process.
use ginit.Base.{
  ℕ, ◌|||◌, ℤ, pos, neg, is_neg, eq_ℤ, as_i32, try_u32, Bool, true, not, Bytes, List, [], ◌∷◌, some,
  none, if◌then◌else◌,
}
use ginit.Machine.{
  word, space, null, Task, child, World, Outcome, done, hung, gone, undefined, spent, M, pure, stop,
  ◌>>=◌, ◌>>◌,
}
use ginit.Linux.Consts.{clone_vm, clone_vfork, sigchld, einval}
use ginit.Linux.Calls.{syscall_5, socketpair, execve, exit, wait4}
use ginit.Linux.Console.{stderr, write_fmt, with_value}

-- `Result<A, i32>`
pub data Result (A : Type 0) : Type 0 where
  ok : A → Result A
  err : ℤ → Result A

-- The two descriptors that the kernel stored; it stores both, and an array that it leaves as it
-- was is read uninitialised.
unfoldable pub both_fds : List ℤ → M (Result (ℕ × ℕ))
both_fds (a ∷ b ∷ rest) = elim (try_u32 a) [
  | none ↦ pure (err (neg einval))
  | some s0 ↦ elim (try_u32 b) [ none ↦ pure (err (neg einval)) | some s1 ↦ pure (ok (s0, s1)) ]
]
both_fds _ = stop undefined

unfoldable pub create_socket_pair : ℕ → ℕ → ℕ → M (Result (ℕ × ℕ))
unfolding socketpair both_fds
create_socket_pair family type_ protocol = do
  (ret, sockets) ← socketpair family type_ protocol
  if not (eq_ℤ ret (pos 0)) then pure (err ret) else both_fds sockets

-- The parent goes on when the child is gone. A child that returns from `f` runs on a stack that
-- has no caller, and one that hangs keeps its parent suspended.
unfoldable pub resume : Task → Outcome (Unit {0}) × World → Outcome (Unit {0}) × World
resume task (gone, w) = (done tt, record w { task = task })
resume task (done _, w) = (undefined, w)
resume task (hung, w) = (hung, w)
resume task (undefined, w) = (undefined, w)
resume task (spent, w) = (spent, w)

unfoldable pub run_child : M (Unit {0}) → M (Unit {0})
unfolding resume
run_child f m w = resume w.task (f m (record w { task = child }))

-- `clone` under `CLONE_VM | CLONE_VFORK`: the child runs `f` in the parent's memory while the
-- parent waits.
unfoldable pub clone : ℕ → M (Unit {0}) → M ℤ
unfolding syscall_5 run_child
clone flags f = do
  r ← syscall_5 56 (word flags) (space 512) null null null
  if is_neg r.ret then pure (as_i32 r.ret) else do run_child f; pure (as_i32 r.ret)

pub record SpawnHelperData : Type 0 where
  pub filename : Bytes
  pub argv : List Bytes
  pub envp : List Bytes
  pub pre_exec : M Bool

-- `execve` comes back only with an error, which the helper writes without panicking.
unfoldable pub spawn_helper : SpawnHelperData → M (Unit {0})
unfolding execve exit write_fmt with_value
spawn_helper arg = do
  ready ← arg.pre_exec
  if ready
      then (do
        ret ← execve arg.filename arg.argv arg.envp
        written ←
            (if is_neg ret
              then write_fmt stderr (with_value "failed to execve: " ret)
              else pure true)
        exit (pos 1))
      else exit (pos 1)

-- `pre_exec` stands for the function with its `pre_exec_data`.
unfoldable pub spawn_with_pre_exec : Bytes → List Bytes → List Bytes → M Bool → M ℤ
unfolding clone spawn_helper
spawn_with_pre_exec filename argv envp pre_exec =
    clone (clone_vm ||| clone_vfork ||| sigchld)
      (spawn_helper (record { filename = filename; argv = argv; envp = envp; pre_exec = pre_exec }))

abbrev pub dummy_pre_exec : M Bool
dummy_pre_exec = pure true

unfoldable pub spawn : Bytes → List Bytes → List Bytes → M ℤ
unfolding spawn_with_pre_exec
spawn filename argv envp = spawn_with_pre_exec filename argv envp dummy_pre_exec

-- The status that `wait4` has stored, 0 where it stored none.
abbrev pub stored_status : List ℤ → ℤ
stored_status [] = pos 0
stored_status (status ∷ _) = status

unfoldable pub spawn_and_wait_with_pre_exec :
    Bytes → List Bytes → List Bytes → M Bool → M (Result ℤ)
unfolding spawn_with_pre_exec wait4
spawn_and_wait_with_pre_exec filename argv envp pre_exec = do
  pid ← spawn_with_pre_exec filename argv envp pre_exec
  if is_neg pid then pure (err pid) else do
    (ret, ints) ← wait4 pid (space 4) 0
    pure (if is_neg ret then err ret else ok (stored_status ints))

unfoldable pub spawn_and_wait : Bytes → List Bytes → List Bytes → M (Result ℤ)
unfolding spawn_and_wait_with_pre_exec
spawn_and_wait filename argv envp = spawn_and_wait_with_pre_exec filename argv envp dummy_pre_exec
