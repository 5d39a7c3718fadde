-- ===== src/Ends/Options.antt =====
-- The files that src/sysctl.rs opens, one for each option.
use ginit.Base.{
  ℕ, ◌==◌, ◌^◌, ◌≡◌, inr, refl, sym, ap, ◌∙◌, ℤ, pos, negsuc, is_neg, InI32, as_i32, as_i32-InI32,
  try_u32, lt→ltb, true, false, String, Bytes, List, [], ◌∷◌, ◌++◌, append_assoc, text,
  if◌then◌else◌, arith,
}
use ginit.Machine.{Arg, bytes, Event, World, Machine, done, M, pure, ◌>>=◌, syscall}
use ginit.Linux.Calls.{open_file, write, close}
use ginit.Linux.Console.{
  stderr, write_fmt, writeln, with_value, warn_if_neg, unwrap, drop_fd, with_fd,
}
use ginit.Sysctl.{options, open_and_write, apply_each, apply_sysctl}
use ginit.Ends.{Speaks, IsStandard}

-- The name in the arguments of an `open`.
abbrev name_of : List Arg → List Bytes
name_of (bytes name ∷ _) = name ∷ []
name_of _ = []

abbrev pub opens : Event → List Bytes
opens e = if e.call.num == 2 then name_of e.call.args else []

-- The files that the calls of a history open, the newest first.
unfoldable pub files : List Event → List Bytes
files [] = []
files (e ∷ before) = opens e ++ files before

-- Where its messages are taken, the program gives a result, and it opens those files, given the
-- newest first.
record Opens {A : Type 0} (p : M A) (fs : List Bytes) : Type 0 where
  run :
      (m : Machine) (w : World)
      → Speaks m
      → (a : A) × (v : World) × (p m w ≡ (done a, v)) × (files v.history ≡ fs ++ files w.history)

bind-Opens :
    {A B : Type 0} {p : M A} {q : A → M B} {fs : List Bytes} (gs : List Bytes)
    → Opens p fs
    → ((a : A) → Opens (q a) gs)
    → Opens (p >>= q) (gs ++ fs)
bind-Opens {fs = fs} gs kp kq = record {
  run = λ m w s.
      let (a, v, e, f) = kp.run m w s in
      let (b, u, e', f') = (kq a).run m v s in
      (b, u, rw e e', f' ∙ ap (λ x. gs ++ x) f ∙ sym (append_assoc gs fs (files w.history)));
}

pure-Opens : {A : Type 0} (a : A) → Opens (pure a) []
pure-Opens a = record { run = λ m w s. (a, w, refl, refl) }

-- Calls other than `open`.
other-Opens : (num : ℕ) (args : List Arg) → (num == 2) ≡ false → Opens (syscall num args) []
unfolding syscall files
other-Opens num args n = record { run = λ m w s. (_, _, refl, rw n refl) }

write_fmt-Opens :
    (fd : ℕ) (pieces : List Bytes) (m : Machine) (w : World)
    → IsStandard fd
    → Speaks m
    → (v : World) × (write_fmt fd pieces m w ≡ (done true, v)) × (files v.history ≡ files w.history)
unfolding write_fmt write syscall files
write_fmt-Opens fd [] m w d k = (w, refl, refl)
write_fmt-Opens fd (s ∷ pieces) m w d k =
    let (u, e, f) = write_fmt-Opens fd pieces m (write fd s m w).1 d k in (u, rw (k w fd s d) e, f)

warn_if_neg-Opens : (s : String) (ret : ℤ) → Opens (warn_if_neg s ret) []
unfolding warn_if_neg writeln
warn_if_neg-Opens s (pos n) = pure-Opens tt
warn_if_neg-Opens s (negsuc n) = record {
  run = λ m w k.
      let (v, e, f) = write_fmt-Opens stderr (with_value s (negsuc n)) m w (inr refl) k in
      (tt, v, rw e refl, f);
}

drop_fd-Opens : (fd : ℕ) → Opens (drop_fd fd) []
unfolding drop_fd close
drop_fd-Opens fd =
    bind-Opens [] (bind-Opens [] (other-Opens 3 _ refl) (λ r. pure-Opens (as_i32 r.ret)))
      (λ ret. warn_if_neg-Opens "failed to close FD: " ret)

write_value :
    (fd : ℕ) (content : Bytes)
    → Opens
        (with_fd fd (do ret ← write fd content; warn_if_neg "failed to write to sysctl file: " ret))
        []
unfolding with_fd write
write_value fd content =
    bind-Opens []
      (bind-Opens [] (bind-Opens [] (other-Opens 1 _ refl) (λ r. pure-Opens r.ret))
        (λ ret. warn_if_neg-Opens "failed to write to sysctl file: " ret))
      (λ a. bind-Opens [] (drop_fd-Opens fd) (λ _. pure-Opens a))

after_open :
    (content : Bytes) (fd : ℤ)
    → InI32 fd
    → Opens
        (if is_neg fd then writeln stderr (with_value "failed to open sysctl file: " fd) else (do
          n ← unwrap (try_u32 fd)
          with_fd n (do ret ← write n content; warn_if_neg "failed to write to sysctl file: " ret)))
        []
unfolding try_u32 warn_if_neg
after_open content (negsuc k) r = warn_if_neg-Opens "failed to open sysctl file: " (negsuc k)
after_open content (pos k) r = rw (lt→ltb k (2 ^ 32) (omega arith)) (write_value k content)

open_and_write-Opens : (path content : Bytes) → Opens (open_and_write path content) (path ∷ [])
unfolding open_and_write open_file syscall files
open_and_write-Opens path content = record {
  run = λ m w s. (after_open content (as_i32 _) (as_i32-InI32 _)).run m _ s;
}

-- The paths of the options, the last one first.
unfoldable pub newest_first : List (String × String) → List Bytes
newest_first [] = []
newest_first ((path, content) ∷ rest) = newest_first rest ++ text path ∷ []

apply_each-Opens : (os : List (String × String)) → Opens (apply_each os) (newest_first os)
unfolding apply_each newest_first
apply_each-Opens [] = pure-Opens tt
apply_each-Opens ((path, content) ∷ rest) =
    bind-Opens (newest_first rest) (open_and_write-Opens (text path) (text content))
      (λ _. apply_each-Opens rest)

-- Where the machine takes what is written to the standard streams, every option of the kernel is
-- tried, whatever became of the others: the calls open the files of the options, each once and in
-- the order of the source, and no other file.
pub apply_sysctl-files :
    (m : Machine) (w : World)
    → Speaks m
    → (v : World) × (apply_sysctl m w ≡ (done tt, v))
      × (files v.history ≡ newest_first options ++ files w.history)
unfolding apply_sysctl
apply_sysctl-files m w s = let (a, v, e, f) = (apply_each-Opens options).run m w s in (v, e, f)
