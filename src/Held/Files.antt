-- ===== src/Held/Files.antt =====
-- Descriptors in the functions that open a file: src/sysctl.rs, src/ui.rs and src/mounts.rs.
use ginit.Base.{
  ℕ, zero, suc, ℤ, pos, negsuc, is_neg, as_i32, try_i32, try_u32, String, Bytes, List, [], ◌∷◌,
  Option, text, zeros, overwrite, if◌then◌else◌, refl, ap,
}
use ginit.Machine.{spent, M, pure, ◌>>=◌}
use ginit.Linux.Consts.{o_wronly, o_rdonly}
use ginit.Linux.Calls.{open_file, read}
use ginit.Linux.Console.{stderr, with_value, unwrap, with_fd}
use ginit.Mounts.{
  Parser, Flow, again, broke, returned, faulted, ran_out, before_directory, after_chunk, on_read,
  read_loop, read_mounts_from_fd, read_mounts,
}
use ginit.Sysctl.{options, open_and_write, apply_each, apply_sysctl}
use ginit.Ui.{set_backlight_brightness}
use ginit.Held.{pushed, opened, Keeps, Preserves}
use ginit.Held.Rules.{bind-Keeps, syscall-Keeps, pure-Keeps, stop-Keeps, then-Preserves, to-Keeps}
use ginit.Held.Console.{
  write-Preserves, panic-Keeps, writeln-Preserves, warn_if_neg-Preserves, unwrap-Keeps,
  with_fd-Keeps, without-head,
}

pub open_file-Keeps :
    (name : Bytes) (flags mode : ℕ) (h : List ℕ)
    → Keeps h (open_file name flags mode) (λ ret. opened ret h)
unfolding open_file
open_file-Keeps name flags mode h =
    bind-Keeps (syscall-Keeps 2 _ h) (λ r. pure-Keeps (as_i32 r.ret) (λ ret. opened ret h) refl)

-- The scope of a descriptor that lies on top at its end.
pub with_fd-top :
    {A : Type 0} (n : ℕ) {g : List ℕ} (h : List ℕ) {body : M A}
    → Keeps g body (λ _. n ∷ h)
    → Keeps g (with_fd n body) (λ _. h)
with_fd-top n h kb = to-Keeps _ (λ _. h) (λ _. without-head n h) (with_fd-Keeps n (n ∷ h) kb)

-- The scope of a descriptor that has been made last.
pub scope-Keeps :
    {A : Type 0} (n : ℕ) (h : List ℕ) {body : M A}
    → Preserves body
    → Keeps (n ∷ h) (with_fd n body) (λ _. h)
scope-Keeps n h kb = with_fd-top n h (kb (n ∷ h))

-- `fd` was opened, or the call has failed.
pub opened-Keeps :
    {A : Type 0} (fd : ℤ) (h : List ℕ) {fail : M A} {body : ℕ → M A}
    → Preserves fail
    → ((n : ℕ) → Preserves (body n))
    → Keeps
        (opened fd h)
        (if is_neg fd then fail else (do n ← unwrap (try_u32 fd); with_fd n (body n)))
        (λ _. h)
unfolding try_u32
opened-Keeps (negsuc k) h kf kb = kf h
opened-Keeps (pos k) h kf kb =
    bind-Keeps (unwrap-Keeps {K = λ n. n ∷ h} (try_u32 (pos k)) (λ a e. ap (λ o. pushed o h) e))
      (λ n. scope-Keeps n h (kb n))

-- Writing one option of the kernel.
open_and_write-Preserves : (path content : Bytes) → Preserves (open_and_write path content)
unfolding open_and_write
open_and_write-Preserves path content h = bind-Keeps (open_file-Keeps path o_wronly 0 h) (λ fd.
    opened-Keeps fd h (writeln-Preserves stderr (with_value "failed to open sysctl file: " fd))
      (λ n h'.
        bind-Keeps (write-Preserves n content h')
          (λ ret. warn_if_neg-Preserves "failed to write to sysctl file: " ret h')))

apply_each-Preserves : (os : List (String × String)) → Preserves (apply_each os)
unfolding apply_each
apply_each-Preserves [] h = pure-Keeps tt (λ _. h) refl
apply_each-Preserves ((path, content) ∷ rest) h =
    then-Preserves (open_and_write-Preserves (text path) (text content))
      (apply_each-Preserves rest h)

pub apply_sysctl-Preserves : Preserves apply_sysctl
unfolding apply_sysctl
apply_sysctl-Preserves = apply_each-Preserves options

pub set_backlight_brightness-Preserves : Preserves set_backlight_brightness
unfolding set_backlight_brightness
set_backlight_brightness-Preserves h = bind-Keeps (open_file-Keeps _ o_wronly 0 h) (λ fd.
    opened-Keeps fd h
      (writeln-Preserves stderr (with_value "failed to open backlight brightness file: " fd))
      (λ n h'.
        bind-Keeps (write-Preserves n (text "70") h')
          (λ ret. warn_if_neg-Preserves "failed to write to backlight brightness file: " ret h')))

pub read-Preserves : (fd : ℕ) (buf : Bytes) → Preserves (read fd buf)
unfolding read
read-Preserves fd buf h =
    bind-Keeps (syscall-Keeps 0 _ h) (λ r. pure-Keeps (r.ret, overwrite buf r.stored) (λ _. h) refl)

after_chunk-Preserves :
    (flow : Flow) {next : Parser → M (ℤ × Bytes)}
    → ((p : Parser) → Preserves (next p))
    → Preserves (after_chunk flow next)
unfolding after_chunk
after_chunk-Preserves (broke p) k h = k p h
after_chunk-Preserves (returned e out) k h = pure-Keeps (e, out) (λ _. h) refl
after_chunk-Preserves (again p n) k h = stop-Keeps spent (λ w. tt)
after_chunk-Preserves faulted k h = panic-Keeps _ h (λ _. h)
after_chunk-Preserves ran_out k h = stop-Keeps spent (λ w. tt)

-- The result of `try_into().unwrap()`, beside the array.
returns-Preserves :
    (o : Option ℤ) (out : Bytes) → Preserves {A = ℤ × Bytes} (do n ← unwrap o; pure (n, out))
returns-Preserves o out h =
    bind-Keeps (unwrap-Keeps {K = λ _. h} o (λ a e. refl)) (λ n. pure-Keeps (n, out) (λ _. h) refl)

on_read-Preserves :
    (ret : ℤ) (buf : Bytes) (p : Parser) {next : Parser → M (ℤ × Bytes)}
    → ((p' : Parser) → Preserves (next p'))
    → Preserves (on_read ret buf p next)
unfolding on_read
on_read-Preserves (pos zero) buf p k = returns-Preserves (try_i32 (pos p.cursor)) p.out
on_read-Preserves (negsuc e) buf p k = returns-Preserves (try_i32 (negsuc e)) p.out
on_read-Preserves (pos (suc n)) buf p k = after_chunk-Preserves _ k

read_loop-Preserves : (fuel fd : ℕ) (p : Parser) → Preserves (read_loop fuel fd p)
unfolding read_loop
read_loop-Preserves zero fd p h = stop-Keeps spent (λ w. tt)
read_loop-Preserves (suc fuel) fd p h =
    bind-Keeps (read-Preserves fd (zeros 256) h)
      (λ (ret, buf). on_read-Preserves ret buf p (read_loop-Preserves fuel fd) h)

pub read_mounts-Preserves : (fuel : ℕ) (out : Bytes) → Preserves (read_mounts fuel out)
unfolding read_mounts read_mounts_from_fd
read_mounts-Preserves fuel out h = bind-Keeps (open_file-Keeps _ o_rdonly 0 h) (λ fd.
    opened-Keeps fd h (λ h'. pure-Keeps (fd, out) (λ _. h') refl)
      (λ n.
        read_loop-Preserves fuel n (record { state = before_directory; cursor = 0; out = out })))
