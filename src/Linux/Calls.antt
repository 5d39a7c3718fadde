-- ===== src/Linux/Calls.antt =====
-- src/linux.rs: the seven `syscall_n` and the wrappers round them, with the numbers, the widening
-- of the arguments to `u64` and the truncation of the result that each of them has.
use ginit.Base.{
  ℕ, ℤ, is_neg, as_i32, as_u64, Bytes, List, [], ◌∷◌, Option, some, none, length, overwrite,
  le_bytes, if◌then◌else◌, ◌++◌,
}
use ginit.Machine.{
  Arg, word, bytes, strings, space, pollfds, message, null, Reply, M, pure, stop, gone, ◌>>=◌,
  syscall,
}

unfoldable pub syscall_0 : ℕ → M Reply
unfolding syscall
syscall_0 num = syscall num []

unfoldable pub syscall_1 : ℕ → Arg → M Reply
unfolding syscall
syscall_1 num a = syscall num (a ∷ [])

unfoldable pub syscall_2 : ℕ → Arg → Arg → M Reply
unfolding syscall
syscall_2 num a b = syscall num (a ∷ b ∷ [])

unfoldable pub syscall_3 : ℕ → Arg → Arg → Arg → M Reply
unfolding syscall
syscall_3 num a b c = syscall num (a ∷ b ∷ c ∷ [])

unfoldable pub syscall_4 : ℕ → Arg → Arg → Arg → Arg → M Reply
unfolding syscall
syscall_4 num a b c d = syscall num (a ∷ b ∷ c ∷ d ∷ [])

unfoldable pub syscall_5 : ℕ → Arg → Arg → Arg → Arg → Arg → M Reply
unfolding syscall
syscall_5 num a b c d e = syscall num (a ∷ b ∷ c ∷ d ∷ e ∷ [])

unfoldable pub syscall_6 : ℕ → Arg → Arg → Arg → Arg → Arg → Arg → M Reply
unfolding syscall
syscall_6 num a b c d e f = syscall num (a ∷ b ∷ c ∷ d ∷ e ∷ f ∷ [])

-- `ret as i32`
abbrev i32_of : M Reply → M ℤ
i32_of call = do r ← call; pure (as_i32 r.ret)

-- The value of an `i64` result, and the buffer as the kernel leaves it.
unfoldable pub read : ℕ → Bytes → M (ℤ × Bytes)
unfolding syscall_3
read fd buf = do
  r ← syscall_3 0 (word fd) (space (length buf)) (word (length buf))
  pure (r.ret, overwrite buf r.stored)

unfoldable pub write : ℕ → Bytes → M ℤ
unfolding syscall_3
write fd buf = do r ← syscall_3 1 (word fd) (bytes buf) (word (length buf)); pure r.ret

unfoldable pub open_file : Bytes → ℕ → ℕ → M ℤ
unfolding syscall_3
open_file filename flags mode = i32_of (syscall_3 2 (bytes filename) (word flags) (word mode))

unfoldable pub close : ℕ → M ℤ
unfolding syscall_1
close fd = i32_of (syscall_1 3 (word fd))

-- The descriptors with their masks of events; the masks `revents` come back beside the result.
unfoldable pub poll : List (ℤ × ℕ) → ℤ → M (ℤ × List ℕ)
unfolding syscall_3
poll fds timeout_ms = do
  r ← syscall_3 7 (pollfds fds) (word (length fds)) (word (as_u64 timeout_ms))
  pure (as_i32 r.ret, r.masks)

unfoldable pub rt_sigprocmask : ℕ → ℕ → ℕ → M ℤ
unfolding syscall_4
rt_sigprocmask how new size =
    i32_of (syscall_4 14 (word how) (bytes (le_bytes 8 new)) null (word size))

unfoldable pub dup2 : ℕ → ℕ → M ℤ
unfolding syscall_2
dup2 old_fd new_fd = i32_of (syscall_2 33 (word old_fd) (word new_fd))

unfoldable pub socket : ℕ → ℕ → ℕ → M ℤ
unfolding syscall_3
socket family sock_type protocol =
    i32_of (syscall_3 41 (word family) (word sock_type) (word protocol))

unfoldable pub recvfrom : ℤ → Bytes → ℕ → M (ℤ × Bytes)
unfolding syscall_6
recvfrom fd buf flags = do
  r ←
      syscall_6 45 (word (as_u64 fd)) (space (length buf)) (word (length buf)) (word flags) null
        (word 0)
  pure (r.ret, overwrite buf r.stored)

-- The message is its one data vector and its control data, `[]` for none.
unfoldable pub sendmsg : ℤ → Bytes → Bytes → ℕ → M ℤ
unfolding syscall_3
sendmsg fd iov control flags = do
  r ← syscall_3 46 (word (as_u64 fd)) (message iov control) (word flags)
  pure r.ret

unfoldable pub socketpair : ℕ → ℕ → ℕ → M (ℤ × List ℤ)
unfolding syscall_4
socketpair family type_ protocol = do
  r ← syscall_4 53 (word family) (word type_) (word protocol) (space 8)
  pure (as_i32 r.ret, r.ints)

-- A successful `execve` does not come back.
unfoldable pub execve : Bytes → List Bytes → List Bytes → M ℤ
unfolding syscall_3
execve filename argv envp = do
  r ← syscall_3 59 (bytes filename) (strings argv) (strings envp)
  if is_neg r.ret then pure (as_i32 r.ret) else stop gone

unfoldable pub exit : {A : Type 0} → ℤ → M A
unfolding syscall_1
exit code = do r ← syscall_1 60 (word (as_u64 code)); stop gone

-- The result, and the integers stored at `status`, none at a null pointer.
unfoldable pub wait4 : ℤ → Arg → ℕ → M (ℤ × List ℤ)
unfolding syscall_4
wait4 pid status options = do
  r ← syscall_4 61 (word (as_u64 pid)) status (word options) null
  pure (as_i32 r.ret, r.ints)

unfoldable pub kill : ℤ → ℕ → M ℤ
unfolding syscall_2
kill pid signal = i32_of (syscall_2 62 (word (as_u64 pid)) (word signal))

unfoldable pub fcntl : ℕ → ℕ → ℕ → M ℤ
unfolding syscall_3
fcntl fd cmd arg = i32_of (syscall_3 72 (word fd) (word cmd) (word arg))

unfoldable pub chdir : Bytes → M ℤ
unfolding syscall_1
chdir filename = i32_of (syscall_1 80 (bytes filename))

unfoldable pub mkdir : Bytes → ℕ → M ℤ
unfolding syscall_2
mkdir pathname mode = i32_of (syscall_2 83 (bytes pathname) (word mode))

unfoldable pub symlink : Bytes → Bytes → M ℤ
unfolding syscall_2
symlink old_name new_name = i32_of (syscall_2 88 (bytes old_name) (bytes new_name))

unfoldable pub chown : Bytes → ℕ → ℕ → M ℤ
unfolding syscall_3
chown filename uid gid = i32_of (syscall_3 92 (bytes filename) (word uid) (word gid))

unfoldable pub setuid : ℕ → M ℤ
unfolding syscall_1
setuid uid = i32_of (syscall_1 105 (word uid))

unfoldable pub setgid : ℕ → M ℤ
unfolding syscall_1
setgid gid = i32_of (syscall_1 106 (word gid))

-- The array goes as its bytes, four for each group.
unfoldable pub groups_bytes : List ℕ → Bytes
groups_bytes [] = []
groups_bytes (g ∷ groups) = le_bytes 4 g ++ groups_bytes groups

unfoldable pub setgroups : List ℕ → M ℤ
unfolding syscall_2 groups_bytes
setgroups groups = i32_of (syscall_2 116 (word (length groups)) (bytes (groups_bytes groups)))

unfoldable pub sync : M (Unit {0})
unfolding syscall_0
sync = do r ← syscall_0 162; pure tt

-- The data of a mount is a null pointer where there is none.
unfoldable pub mount : Bytes → Bytes → Bytes → ℕ → Option Bytes → M ℤ
unfolding syscall_5
mount dev_name dir_name fs_type flags options = i32_of (
    syscall_5 165 (bytes dev_name) (bytes dir_name) (bytes fs_type) (word flags)
      (elim options [ none ↦ null | some o ↦ bytes o ]))

unfoldable pub umount : Bytes → ℕ → M ℤ
unfolding syscall_2
umount name flags = i32_of (syscall_2 166 (bytes name) (word flags))

unfoldable pub reboot : ℤ → ℤ → ℕ → M ℤ
unfolding syscall_4
reboot magic1 magic2 cmd =
    i32_of (syscall_4 169 (word (as_u64 magic1)) (word (as_u64 magic2)) (word cmd) null)

unfoldable pub signalfd4 : ℤ → ℕ → ℕ → M ℤ
unfolding syscall_4
signalfd4 fd mask flags =
    i32_of (syscall_4 289 (word (as_u64 fd)) (bytes (le_bytes 8 mask)) (word 8) (word flags))
