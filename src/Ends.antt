-- ===== src/Ends.antt =====
-- Programs that end with a result whatever the kernel answers, where it takes what is written to
-- the standard output and to the standard error: a message that cannot be written is a panic.
pub mod Boot
pub mod Options
pub mod Spawn
pub mod KernelLog
pub mod ShuttingDown
use ginit.Base.{
  ℕ, ◌^◌, ◌<◌, ◌≡◌, ◌⊎◌, inl, inr, refl, ℤ, pos, negsuc, is_neg, not, InI32, as_i32, as_i32-InI32,
  try_u32, lt→ltb, Bool, true, false, String, Bytes, List, [], ◌∷◌, length, if◌then◌else◌, arith,
}
use ginit.Machine.{
  Arg, word, bytes, Call, Reply, World, Machine, done, M, pure, ◌>>=◌, ◌>>◌, syscall,
}
use ginit.Linux.Calls.{write, close}
use ginit.Linux.Console.{
  stdout, stderr, write_str, write_fmt, writeln, with_value, warn_if_neg, unwrap, drop_fd, with_fd,
}

abbrev write_call : ℕ → Bytes → Call
write_call fd s = record { num = 1; args = word fd ∷ bytes s ∷ word (length s) ∷ [] }

abbrev pub IsStandard : ℕ → Type 0
IsStandard fd = (fd ≡ stdout) ⊎ (fd ≡ stderr)

abbrev pub Speaks : Machine → Type 0
Speaks m =
    (w : World) (fd : ℕ) (s : Bytes)
    → IsStandard fd
    → is_neg (m.kernel w (write_call fd s)).ret ≡ false

abbrev pub ResultOf : {A : Type 0} → M A → Machine → World → Type 0
ResultOf {A} p m w = (a : A) × (v : World) × (p m w ≡ (done a, v))

pub record Ends {A : Type 0} (p : M A) : Type 0 where
  pub run : (m : Machine) (w : World) → Speaks m → ResultOf p m w

pub bind-Ends :
    {A B : Type 0} {p : M A} {q : A → M B} → Ends p → ((a : A) → Ends (q a)) → Ends (p >>= q)
bind-Ends kp kq = record {
  run =
      λ m w s. let (a, v, e) = kp.run m w s in let (b, u, e') = (kq a).run m v s in (b, u, rw e e');
}

pub then-Ends : {B : Type 0} {p : M (Unit {0})} {q : M B} → Ends p → Ends q → Ends (p >> q)
then-Ends kp kq = bind-Ends kp (λ _. kq)

pub pure-Ends : {A : Type 0} (a : A) → Ends (pure a)
pure-Ends a = record { run = λ m w s. (a, w, refl) }

pub if-Ends : {A : Type 0} {p q : M A} (b : Bool) → Ends p → Ends q → Ends (if b then p else q)
if-Ends true kp kq = kp
if-Ends false kp kq = kq

pub syscall-Ends : (num : ℕ) (args : List Arg) → Ends (syscall num args)
unfolding syscall
syscall-Ends num args = record { run = λ m w s. (_, _, refl) }

-- A call whose result is an `i32`, and what follows it.
pub call-Ends :
    {B : Type 0} (num : ℕ) (args : List Arg) {q : ℤ → M B}
    → ((ret : ℤ) → InI32 ret → Ends (q ret))
    → Ends ((syscall num args >>= λ r. pure (as_i32 r.ret)) >>= q)
unfolding syscall
call-Ends num args kq = record { run = λ m w s. (kq (as_i32 _) (as_i32-InI32 _)).run m _ s }

pub write_fmt-ok :
    (fd : ℕ) (pieces : List Bytes) (m : Machine) (w : World)
    → IsStandard fd
    → Speaks m
    → (v : World) × (write_fmt fd pieces m w ≡ (done true, v))
unfolding write_fmt write syscall
write_fmt-ok fd [] m w d k = (w, refl)
write_fmt-ok fd (s ∷ pieces) m w d k =
    let (u, e) = write_fmt-ok fd pieces m (write fd s m w).1 d k in (u, rw (k w fd s d) e)

pub writeln-Ends : (fd : ℕ) (pieces : List Bytes) → IsStandard fd → Ends (writeln fd pieces)
unfolding writeln
writeln-Ends fd pieces d = record {
  run = λ m w k. let (v, e) = write_fmt-ok fd pieces m w d k in (tt, v, rw e refl);
}

pub warn_if_neg-Ends : (s : String) (ret : ℤ) → Ends (warn_if_neg s ret)
unfolding warn_if_neg
warn_if_neg-Ends s ret =
    if-Ends (is_neg ret) (writeln-Ends stderr (with_value s ret) (inr refl)) (pure-Ends tt)

drop_fd-Ends : (fd : ℕ) → Ends (drop_fd fd)
unfolding drop_fd close
drop_fd-Ends fd = call-Ends 3 _ (λ ret r. warn_if_neg-Ends "failed to close FD: " ret)

pub with_fd-Ends : {A : Type 0} (fd : ℕ) {body : M A} → Ends body → Ends (with_fd fd body)
unfolding with_fd
with_fd-Ends fd kb = bind-Ends kb (λ a. bind-Ends (drop_fd-Ends fd) (λ _. pure-Ends a))

-- The conversion of a descriptor that is no error.
pub opened-Ends :
    {A : Type 0} (fd : ℤ) {fail : M A} {body : ℕ → M A}
    → InI32 fd
    → Ends fail
    → ((n : ℕ) → Ends (body n))
    → Ends (if is_neg fd then fail else (do n ← unwrap (try_u32 fd); with_fd n (body n)))
unfolding try_u32
opened-Ends (negsuc k) r kf kb = kf
opened-Ends (pos k) {body = body} r kf kb =
    rw (lt→ltb k (2 ^ 32) (omega arith)) (with_fd-Ends k (kb k))
