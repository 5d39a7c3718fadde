-- ===== src/Held/Console.antt =====
-- Descriptors in the functions of src/linux.rs that write messages, and in `Fd`.
use ginit.Base.{
  ℕ, as_i32, ℤ, is_neg, not, true, false, String, Bytes, List, [], ◌∷◌, ◌++◌, Option, none, some,
  text, refl, ==_iff, ◌≡◌,
}
use ginit.Machine.{Panic, hung, M, pure}
use ginit.Linux.Calls.{write, close, sync}
use ginit.Linux.Console.{
  stderr, write_str, write_fmt, panic, writeln, with_value, warn_if_neg, unwrap, drop_fd, with_fd,
}
use ginit.Held.{without, Keeps, Preserves}
use ginit.Held.Rules.{bind-Keeps, syscall-Keeps, pure-Keeps, stop-Keeps, if-Keeps, then-Preserves}

pub write-Preserves : (fd : ℕ) (buf : Bytes) → Preserves (write fd buf)
unfolding write
write-Preserves fd buf h = bind-Keeps (syscall-Keeps 1 _ h) (λ r. pure-Keeps r.ret (λ _. h) refl)

write_str-Preserves : (fd : ℕ) (s : Bytes) → Preserves (write_str fd s)
unfolding write_str
write_str-Preserves fd s h =
    bind-Keeps (write-Preserves fd s h) (λ ret. pure-Keeps (not (is_neg ret)) (λ _. h) refl)

pub sync-Preserves : Preserves sync
unfolding sync
sync-Preserves h = bind-Keeps (syscall-Keeps 162 [] h) (λ r. pure-Keeps tt (λ _. h) refl)

pub write_fmt-Preserves : (fd : ℕ) (pieces : List Bytes) → Preserves (write_fmt fd pieces)
unfolding write_fmt
write_fmt-Preserves fd [] h = pure-Keeps true (λ _. h) refl
write_fmt-Preserves fd (s ∷ pieces) h =
    bind-Keeps (write_str-Preserves fd s h)
      (λ ok. if-Keeps ok (write_fmt-Preserves fd pieces h) (pure-Keeps false (λ _. h) refl))

-- A panic gives no result.
pub panic-Keeps : {A : Type 0} (p : Panic) (h : List ℕ) (K : A → List ℕ) → Keeps h (panic p) K
unfolding panic
panic-Keeps p h K = record {
  run = λ m w own.
      (bind-Keeps {L = K} (write_fmt-Preserves stderr (m.panic_text p ++ text "\n" ∷ []) h)
          (λ ok. then-Preserves sync-Preserves (stop-Keeps hung (λ v. tt)))).run
        m w own;
}

pub writeln-Preserves : (fd : ℕ) (pieces : List Bytes) → Preserves (writeln fd pieces)
unfolding writeln
writeln-Preserves fd pieces h =
    bind-Keeps (write_fmt-Preserves fd pieces h)
      (λ ok. if-Keeps ok (pure-Keeps tt (λ _. h) refl) (panic-Keeps _ h (λ _. h)))

pub warn_if_neg-Preserves : (s : String) (ret : ℤ) → Preserves (warn_if_neg s ret)
unfolding warn_if_neg
warn_if_neg-Preserves s ret h =
    if-Keeps (is_neg ret) (writeln-Preserves stderr (with_value s ret) h)
      (pure-Keeps tt (λ _. h) refl)

pub unwrap-Keeps :
    {A : Type 0} {h : List ℕ} {K : A → List ℕ} (o : Option A)
    → ((a : A) → o ≡ some a → h ≡ K a)
    → Keeps h (unwrap o) K
unwrap-Keeps {h = h} {K} none f = panic-Keeps _ h K
unwrap-Keeps {K = K} (some a) f = pure-Keeps a K (f a refl)

pub drop_fd-Keeps : (fd : ℕ) (h : List ℕ) → Keeps h (drop_fd fd) (λ _. without fd h)
unfolding drop_fd close
drop_fd-Keeps fd h =
    bind-Keeps
      (bind-Keeps (syscall-Keeps 3 _ h) (λ r. pure-Keeps (as_i32 r.ret) (λ _. without fd h) refl))
      (λ ret. warn_if_neg-Preserves "failed to close FD: " ret (without fd h))

pub with_fd-Keeps :
    {A : Type 0} (fd : ℕ) {h : List ℕ} (h' : List ℕ) {body : M A}
    → Keeps h body (λ _. h')
    → Keeps h (with_fd fd body) (λ _. without fd h')
unfolding with_fd
with_fd-Keeps fd h' kb =
    bind-Keeps kb
      (λ a. bind-Keeps (drop_fd-Keeps fd h') (λ _. pure-Keeps a (λ _. without fd h') refl))

pub without-head : (n : ℕ) (h : List ℕ) → without n (n ∷ h) ≡ h
without-head n h = rw ((==_iff n n).1 refl)

-- Bytes of padding come from no call.
pub padding-Preserves : (n : ℕ) → Preserves {A = Bytes} (λ m. pure (m.padding n) m)
padding-Preserves n h = record { run = λ m w own. own }
