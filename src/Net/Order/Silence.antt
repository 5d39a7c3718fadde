-- ===== src/Net/Order/Silence.antt =====
-- src/net.rs: what runs between two requests writes nothing to the socket.
use ginit.Base.{
  ℕ, zero, suc, ◌≡◌, refl, sym, ap, ◌∙◌, ◌==◌, false, ℤ, pos, negsuc, try_i32, Bytes, List, [], ◌∷◌,
  ◌++◌, Option, none, some, zeros, text, overwrite,
}
use ginit.Machine.{
  Panic, Arg, World, Machine, done, hung, spent, undefined, M, pure, stop, ◌>>=◌, syscall,
}
use ginit.Machine.Runs.{bind-done}
use ginit.Linux.Calls.{read, sync}
use ginit.Linux.Console.{stderr, write_fmt, panic, unwrap}
use ginit.Net.{
  Scan, found, exhausted, index_panic, beyond, unfinished, after_scan, on_recv, ack_error, scan,
}
use ginit.Net.Order.{sent}

-- Where the program gives a result, it has written nothing to the descriptor.
pub record Silent (fd : ℕ) {A : Type 0} (p : M A) : Type 0 where
  pub run :
      (m : Machine) (w v : World) (a : A)
      → p m w ≡ (done a, v)
      → sent fd v.history ≡ sent fd w.history

pub bind-Silent :
    {A B : Type 0} {fd : ℕ} {p : M A} {q : A → M B}
    → Silent fd p
    → ((a : A) → Silent fd (q a))
    → Silent fd (p >>= q)
bind-Silent {p = p} {q = q} kp kq = record {
  run = λ m w v b e.
      let (a, u, e1, e2) = bind-done (p m w) q m b v e in (kq a).run m u v b e2 ∙ kp.run m w u a e1;
}

pub pure-Silent : {A : Type 0} (fd : ℕ) (a : A) → Silent fd (pure a)
pure-Silent fd a = record { run = λ m w v b e. ap (λ x. sent fd x.1.history) (sym e) }

spent-Silent : {A : Type 0} (fd : ℕ) → Silent fd {A = A} (stop spent)
spent-Silent fd = record { run = λ m w v a e. absurd cc }

undefined-Silent : {A : Type 0} (fd : ℕ) → Silent fd {A = A} (stop undefined)
undefined-Silent fd = record { run = λ m w v a e. absurd cc }

-- A program that ends without a result.
record NoResult {A : Type 0} (p : M A) : Type 0 where
  run : (m : Machine) (w v : World) (a : A) → p m w ≡ (done a, v) → ⊥

bind-NoResult :
    {A B : Type 0} (p : M A) {q : A → M B} → ((a : A) → NoResult (q a)) → NoResult (p >>= q)
bind-NoResult p {q = q} kq = record {
  run = λ m w v b e. let (a, u, e1, e2) = bind-done (p m w) q m b v e in (kq a).run m u v b e2;
}

hung-NoResult : {A : Type 0} → NoResult (stop {A = A} hung)
hung-NoResult = record { run = λ m w v a e. absurd cc }

pub panic-NoResult :
    {A : Type 0} (p : Panic) (m : Machine) (w v : World) (a : A) → panic p m w ≡ (done a, v) → ⊥
unfolding panic
panic-NoResult p m w v a e =
    (bind-NoResult (write_fmt stderr (m.panic_text p ++ text "\n" ∷ []))
        (λ ok. bind-NoResult sync (λ t. hung-NoResult))).run
      m w v a e

panic-Silent : {A : Type 0} (fd : ℕ) (p : Panic) → Silent fd (panic {A = A} p)
panic-Silent fd p = record { run = λ m w v a e. absurd (panic-NoResult p m w v a e) }

pub unwrap-Silent : {A : Type 0} (fd : ℕ) (o : Option A) → Silent fd (unwrap o)
unwrap-Silent fd none = panic-Silent fd _
unwrap-Silent fd (some a) = pure-Silent fd a

other-Silent : (fd num : ℕ) (args : List Arg) → (num == 1) ≡ false → Silent fd (syscall num args)
unfolding syscall sent
other-Silent fd num args n = record { run = λ m w v a e. rw (sym (ap (λ x. x.1) e)) (rw n refl) }

read-Silent : (fd from : ℕ) (buf : Bytes) → Silent fd (read from buf)
unfolding read
read-Silent fd from buf =
    bind-Silent (other-Silent fd 0 _ refl) (λ r. pure-Silent fd (r.ret, overwrite buf r.stored))

after_scan-Silent :
    (fd : ℕ) (o : Scan) (next : M ℤ) → Silent fd next → Silent fd (after_scan o next)
unfolding after_scan
after_scan-Silent fd (found error) next k = pure-Silent fd error
after_scan-Silent fd exhausted next k = k
after_scan-Silent fd index_panic next k = panic-Silent fd _
after_scan-Silent fd beyond next k = undefined-Silent fd
after_scan-Silent fd unfinished next k = spent-Silent fd

on_recv-Silent :
    (fd messages : ℕ) (ret : ℤ) (buf : Bytes) (next : M ℤ)
    → Silent fd next
    → Silent fd (on_recv messages ret buf next)
unfolding on_recv
on_recv-Silent fd messages (negsuc e) buf next k = unwrap-Silent fd (try_i32 (negsuc e))
on_recv-Silent fd messages (pos n) buf next k = after_scan-Silent fd (scan messages buf n 0) next k

pub ack_error-Silent : (fd reads messages from : ℕ) → Silent fd (ack_error reads messages from)
unfolding ack_error
ack_error-Silent fd zero messages from = spent-Silent fd
ack_error-Silent fd (suc reads) messages from =
    bind-Silent (read-Silent fd from (zeros 8192))
      (λ x. on_recv-Silent fd messages x.0 x.1 _ (ack_error-Silent fd reads messages from))
