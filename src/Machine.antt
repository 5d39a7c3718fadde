-- ===== src/Machine.antt =====
-- The machine that the program runs on. The kernel is not part of the repository: it is a function
-- of the calls made so far, with their replies, so a statement over every `Machine` holds for
-- every kernel, every other process and every order of outside events.
pub mod Runs
pub mod Chain
use ginit.Base.{ℕ, ℤ, Bytes, List, ◌∷◌}

-- What a register passes: a number, the bytes that a pointer leads to, the number of bytes that
-- a pointer lets the kernel write, the descriptors and masks of a `poll`, the data and the control
-- message of a `sendmsg`, or a null pointer.
pub data Arg : Type 0 where
  word : ℕ → Arg
  bytes : Bytes → Arg
  strings : List Bytes → Arg
  space : ℕ → Arg
  pollfds : List (ℤ × ℕ) → Arg
  message : Bytes → Bytes → Arg
  null : Arg

pub record Call : Type 0 where
  pub num : ℕ
  pub args : List Arg

-- The value of `rax`, and what the kernel has written through the pointers: bytes, integers or
-- the bit masks of a `poll`.
pub record Reply : Type 0 where
  pub ret : ℤ
  pub stored : Bytes
  pub ints : List ℤ
  pub masks : List ℕ

-- `CLONE_VFORK` suspends the parent while the child runs, so one of the two makes each call.
pub data Task : Type 0 where
  parent : Task
  child : Task

pub record Event : Type 0 where
  pub task : Task
  pub call : Call
  pub reply : Reply

-- The newest event comes first.
pub record World : Type 0 where
  pub task : Task
  pub history : List Event

-- Where the code panics.
pub data Panic : Type 0 where
  fmt_error : Panic
  conversion : Panic
  out_of_bounds : Panic
  overflow : Panic

pub record Machine : Type 0 where
  pub kernel : World → Call → Reply
  -- The pieces that `Display` of a panic writes, with the place in the source.
  pub panic_text : Panic → List Bytes
  -- The bytes found in so many bytes of padding, which nothing initialises.
  pub padding : ℕ → Bytes

-- `hung` is the endless loop of the panic handler, `gone` the end of a process by `exit` or by a
-- successful `execve`, `undefined` an access beyond an object, and `spent` a loop that has used
-- up the model's fuel.
pub data Outcome (A : Type 0) : Type 0 where
  done : A → Outcome A
  hung : Outcome A
  gone : Outcome A
  undefined : Outcome A
  spent : Outcome A

abbrev pub M : Type 0 → Type 0
M A = Machine → World → Outcome A × World

abbrev pub pure : {A : Type 0} → A → M A
pure a m w = (done a, w)

abbrev pub stop : {A : Type 0} → Outcome A → M A
stop o m w = (o, w)

abbrev pub continue : {A B : Type 0} → Outcome A × World → (A → M B) → Machine → Outcome B × World
continue (done a, w) f m = f a m w
continue (hung, w) f m = (hung, w)
continue (gone, w) f m = (gone, w)
continue (undefined, w) f m = (undefined, w)
continue (spent, w) f m = (spent, w)

infixl 5 ◌>>=◌ ◌>>◌
abbrev pub ◌>>=◌ : {A B : Type 0} → M A → (A → M B) → M B
◌>>=◌ p f m w = continue (p m w) f m

abbrev pub ◌>>◌ : {B : Type 0} → M (Unit {0}) → M B → M B
p >> q = p >>= λ _. q

-- One system call.
unfoldable pub syscall : ℕ → List Arg → M Reply
syscall num args m w =
    let call : Call = record { num = num; args = args } in
    let reply : Reply = m.kernel w call in
    (
      done reply,
      record w { history = (record { task = w.task; call = call; reply = reply }) ∷ w.history },
    )
