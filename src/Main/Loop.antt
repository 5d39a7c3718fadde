-- ===== src/Main/Loop.antt =====
-- The loop of `run_event_loop` in src/main.rs.
use ginit.Base.{
  ℕ, zero, suc, ◌-◌, ◌^◌, ◌==◌, ◌|||◌, ◌&◌, ltb, ℤ, pos, negsuc, neg, is_neg, eq_ℤ, try_i32, Bool,
  true, false, not, List, [], ◌∷◌, zeros, if◌then◌else◌,
}
use ginit.Machine.{space, M, pure, stop, spent, ◌>>=◌, ◌>>◌}
use ginit.Linux.Consts.{pollin, pollerr, pollnval, eagain, wnohang}
use ginit.Linux.Calls.{poll, read, wait4}
use ginit.Linux.Console.{stdout, stderr, with_value, writeln, unwrap}
use ginit.Linux.Spawn.{ok, err}
use ginit.Seat.{SeatServer, process_incoming}

-- Drains the signalfd, so that it is readable again only when a new signal arrives.
unfoldable pub drain : ℕ → ℕ → M (Unit {0})
drain zero signalfd = stop spent
drain (suc fuel) signalfd = do
  (ret, buf) ← read signalfd (zeros 128)
  if eq_ℤ ret (neg eagain)
      then pure tt
      else if is_neg ret
      then writeln stderr (with_value "failed to read from signalfd: " ret)
      else drain fuel signalfd

-- The value of `status` after a call: what the kernel stored, or what it was.
abbrev pub status_after : List ℤ → ℤ → ℤ
status_after [] old = old
status_after (status ∷ _) old = status

-- Reaps zombie processes; `true` if the user interface's process was one.
unfoldable pub reap : ℕ → ℤ → ℤ → M Bool
reap zero ui_child_pid status = stop spent
reap (suc fuel) ui_child_pid status = do
  (pid, ints) ← wait4 (neg 1) (space 4) wnohang
  let status' = status_after ints status
  if is_neg pid
      then (do writeln stderr (with_value "failed to wait for process: " pid); pure false)
      else if eq_ℤ pid (pos 0)
      then pure false
      else if eq_ℤ pid ui_child_pid
      then (do writeln stdout (with_value "UI process died: " status'); pure true)
      else reap fuel ui_child_pid status'

-- The bits of an `i16` as an integer.
abbrev pub signed16 : ℕ → ℤ
signed16 n = if ltb n (2 ^ 15) then pos n else negsuc (2 ^ 16 - 1 - n)

abbrev pub mask_at : ℕ → List ℕ → ℕ
mask_at i [] = 0
mask_at zero (r ∷ revents) = r
mask_at (suc i) (r ∷ revents) = mask_at i revents

abbrev pub is_set : ℕ → ℕ → Bool
is_set revents mask = not ((revents & mask) == 0)

-- What the loop does after a round.
pub data Next : Type 0 where
  goes_on : Next
  leaves : Next

-- The branch of the signalfd.
unfoldable pub on_signal : ℕ → ℕ → ℤ → Bool → M Next
on_signal fuel signalfd ui_child_pid false = pure goes_on
on_signal fuel signalfd ui_child_pid true = do
  drain fuel signalfd
  died ← reap fuel ui_child_pid (pos 0)
  pure (if died then leaves else goes_on)

-- The branch of the seat server.
unfoldable pub on_seat : ℕ → SeatServer → Bool → M Next
on_seat fuel server false = pure goes_on
on_seat fuel server true = do
  r ← process_incoming fuel server
  elim r [
    | ok _ ↦ pure goes_on
    | err e ↦ do
      writeln stderr (with_value "failed to process seat server request: " e)
      pure leaves
  ]

-- What follows `poll`, at the two masks that it has stored.
unfoldable pub dispatch : ℕ → ℕ → SeatServer → ℤ → ℕ → ℕ → M Next
unfolding on_signal on_seat
dispatch fuel signalfd server ui_child_pid r0 r1 =
    if is_set r0 (pollerr ||| pollnval)
    then (do
      writeln stderr (with_value "poll returned error on SIGCHLD signalfd: " (signed16 r0))
      pure leaves)
    else if is_set r1 (pollerr ||| pollnval)
    then (do
      writeln stderr (with_value "poll returned error on seat server socket: " (signed16 r1))
      pure leaves)
    else (do
      next ← on_signal fuel signalfd ui_child_pid (is_set r0 pollin)
      elim next [ leaves ↦ pure leaves | goes_on ↦ on_seat fuel server (is_set r1 pollin) ])

unfoldable pub round : ℕ → ℕ → SeatServer → ℤ → M Next
round fuel signalfd server ui_child_pid = do
  fd0 ← unwrap (try_i32 (pos signalfd))
  fd1 ← unwrap (try_i32 (pos server.fd))
  (ret, revents) ← poll ((fd0, pollin) ∷ (fd1, pollin) ∷ []) (pos 500)
  if is_neg ret
      then (do writeln stderr (with_value "failed to poll: " ret); pure leaves)
      else dispatch fuel signalfd server ui_child_pid (mask_at 0 revents) (mask_at 1 revents)

unfoldable pub event_loop : ℕ → ℕ → ℕ → SeatServer → ℤ → M (Unit {0})
event_loop zero fuel signalfd server ui_child_pid = stop spent
event_loop (suc rounds) fuel signalfd server ui_child_pid = do
  next ← round fuel signalfd server ui_child_pid
  elim next [ leaves ↦ pure tt | goes_on ↦ event_loop rounds fuel signalfd server ui_child_pid ]
