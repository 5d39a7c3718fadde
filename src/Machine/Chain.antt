-- ===== src/Machine/Chain.antt =====
-- Calls that are made one behind the other, and that all succeed.
use ginit.Base.{ℕ, ◌≡◌, refl, ap, sym, ℤ, is_neg, as_i32, true, false, List, [], ◌∷◌, ◌++◌}
use ginit.Machine.{Arg, Call, Reply, World, Machine, done, pure, ◌>>=◌, syscall}

-- The only call between two worlds is `call`, and its result as an `i32` is not negative.
pub record Success (call : Call) (w v : World) : Type 0 where
  pub reply : Reply
  pub task_is : v.task ≡ w.task
  pub history_is : v.history ≡ record { task = w.task; call = call; reply = reply } ∷ w.history
  pub succeeds : is_neg (as_i32 reply.ret) ≡ false

-- The calls between two worlds are those of a list, in its order.
pub data Chain : List Call → World → World → Type 0 where
  ends : {w v : World} → w ≡ v → Chain [] w v
  next :
      {w v u : World} {call : Call} {calls : List Call}
      → Success call w v
      → Chain calls v u
      → Chain (call ∷ calls) w u

pub call-Success :
    (num : ℕ) (args : List Arg) (m : Machine) (w v : World) (ret : ℤ)
    → (syscall num args >>= λ r. pure (as_i32 r.ret)) m w ≡ (done ret, v)
    → is_neg ret ≡ false
    → Success (record { num = num; args = args }) w v
unfolding syscall
call-Success num args m w v ret e n =
    let call : Call = record { num = num; args = args } in
    let reply : Reply = m.kernel w call in
    let q : as_i32 reply.ret ≡ ret = cc in
    let p = ap (λ x. x.1) e in
    record {
      reply = reply;
      task_is = ap (λ (x : World). x.task) (sym p);
      history_is = ap (λ (x : World). x.history) (sym p);
      succeeds = rw q n;
    }

-- The only call between two worlds is `call`, and its result is negative.
pub record Failure (call : Call) (ret : ℤ) (w v : World) : Type 0 where
  pub reply : Reply
  pub task_is : v.task ≡ w.task
  pub history_is : v.history ≡ record { task = w.task; call = call; reply = reply } ∷ w.history
  pub value_is : as_i32 reply.ret ≡ ret
  pub fails : is_neg ret ≡ true

pub call-Failure :
    (num : ℕ) (args : List Arg) (m : Machine) (w v : World) (ret : ℤ)
    → (syscall num args >>= λ r. pure (as_i32 r.ret)) m w ≡ (done ret, v)
    → is_neg ret ≡ true
    → Failure (record { num = num; args = args }) ret w v
unfolding syscall
call-Failure num args m w v ret e n =
    let p = ap (λ x. x.1) e in
    record {
      reply = m.kernel w (record { num = num; args = args });
      task_is = ap (λ (x : World). x.task) (sym p);
      history_is = ap (λ (x : World). x.history) (sym p);
      value_is = cc;
      fails = n;
    }

-- The calls of a list, in its order, up to the first that fails.
pub record Stopped (calls : List Call) (ret : ℤ) (w u : World) : Type 0 where
  pub made : List Call
  pub failed : Call
  pub rest : List Call
  pub between : World
  pub splits : calls ≡ made ++ failed ∷ rest
  pub made_Chain : Chain made w between
  pub failed_Failure : Failure failed ret between u

pub stop_at :
    {call : Call} {ret : ℤ} {w u : World} (rest : List Call)
    → Failure call ret w u
    → Stopped (call ∷ rest) ret w u
stop_at {call} {w = w} rest f = record {
  made = [];
  failed = call;
  rest = rest;
  between = w;
  splits = refl;
  made_Chain = ends refl;
  failed_Failure = f;
}

pub stop_after :
    {call : Call} {calls : List Call} {ret : ℤ} {w v u : World}
    → Success call w v
    → Stopped calls ret v u
    → Stopped (call ∷ calls) ret w u
stop_after {call} s t = record {
  made = call ∷ t.made;
  failed = t.failed;
  rest = t.rest;
  between = t.between;
  splits = ap (◌∷◌ call) t.splits;
  made_Chain = next s t.made_Chain;
  failed_Failure = t.failed_Failure;
}
