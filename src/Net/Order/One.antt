-- ===== src/Net/Order/One.antt =====
-- src/net.rs: what one interface sends in each of the three loops.
use ginit.Base.{
  ℕ, ◌≡◌, ==_iff, refl, ap, ◌∙◌, Bool, Bool-cases, inl, inr, true, false, ℤ, pos, is_neg, try_i32,
  as_u64, Bytes, [], ◌∷◌, Option, none, some, if◌then◌else◌, arith,
}
use ginit.Machine.{World, Machine, done, M, pure, ◌>>=◌, syscall, conversion}
use ginit.Machine.Runs.{bind-done}
use ginit.Config.{NetInterface}
use ginit.Linux.Calls.{write}
use ginit.Linux.Console.{panic, unwrap}
use ginit.Net.{
  NetlinkSocket, next_seq, send_and_ack, ack_error, add_addr_to_interface, add_route_to_interface,
  bring_interface_admin_up, address_of, admin_up_of, route_of,
}
use ginit.Net.Order.{
  sent, numbered, number_after, address_request, link_request, route_request, advanced,
  Acknowledged, all_made, refused, accepted, Progress,
}
use ginit.Net.Order.Silence.{unwrap-Silent, ack_error-Silent, panic-NoResult}

write-sends :
    (fd : ℕ) (req : Bytes) (m : Machine) (w v : World) (ret : ℤ)
    → write fd req m w ≡ (done ret, v)
    → sent fd v.history ≡ req ∷ sent fd w.history
unfolding write syscall sent
write-sends fd req m w v ret e = rw (← (ap (λ x. x.1) e)) (rw ((==_iff fd fd).1 refl) refl)

send_and_ack-sends :
    (reads messages : ℕ) (s : NetlinkSocket) (req : Bytes) (m : Machine) (w v : World) (ret : ℤ)
    → send_and_ack reads messages s req m w ≡ (done ret, v)
    → sent s.fd v.history ≡ req ∷ sent s.fd w.history
unfolding send_and_ack
send_and_ack-sends reads messages s req m w v ret e =
    let (a, u, e1, e2) = bind-done (write s.fd req m w) _ m ret v e in
    answered (is_neg a) a u e2 ∙ write-sends s.fd req m w u a e1
  where
    answered :
        (b : Bool) (a : ℤ) (u : World)
        → (if b then unwrap (try_i32 a) else ack_error reads messages s.fd) m u ≡ (done ret, v)
        → sent s.fd v.history ≡ sent s.fd u.history
    answered true a u e' = (unwrap-Silent s.fd (try_i32 a)).run m u v ret e'
    answered false a u e' = (ack_error-Silent s.fd reads messages s.fd).run m u v ret e'

abbrev requested : ℕ → ℕ → NetlinkSocket → (ℕ → Bytes) → M (ℤ × NetlinkSocket)
requested reads messages s request = do
  ret ← send_and_ack reads messages (advanced s) (request s.seq)
  pure (ret, advanced s)

request-Acknowledged :
    (reads messages : ℕ) (m : Machine) (s : NetlinkSocket) (request : ℕ → Bytes) (w v : World)
    (ret : ℤ)
    → send_and_ack reads messages (advanced s) (request s.seq) m w ≡ (done ret, v)
    → Acknowledged reads messages m s (request ∷ []) ret w v
request-Acknowledged reads messages m s request w v ret e = elim (Bool-cases (is_neg ret)) [
  | inl n ↦ refused request refl n e
  | inr n ↦ accepted request n e (all_made refl n refl)
]

-- One request, with the number of the socket.
request-Progress :
    (reads messages : ℕ) (s : NetlinkSocket) (request : ℕ → Bytes) (m : Machine) (w v : World)
    (ret : ℤ) (t : NetlinkSocket)
    → requested reads messages s request m w ≡ (done (ret, t), v)
    → Progress reads messages m (request ∷ []) s t ret w v
unfolding numbered number_after
request-Progress reads messages s request m w v ret t e =
    let (a, u, e1, e2) =
      bind-done (send_and_ack reads messages (advanced s) (request s.seq) m w)
        (λ ret'. pure (ret', advanced s)) m (ret, t) v e in
    let same : u ≡ v = ap (λ x. x.1) e2 in
    let same_ret : a ≡ ret = cc in
    record {
      made = request ∷ [];
      left = [];
      splits = refl;
      whole = λ n. refl;
      sends =
          rw (← same) (send_and_ack-sends reads messages (advanced s) (request s.seq) m w u a e1);
      socket = cc;
      answers = rw (← same, ← same_ret) (request-Acknowledged reads messages m s request w u a e1);
    }

-- No request: the loop goes on with the next interface.
pub nothing-Progress :
    (reads messages : ℕ) (s t : NetlinkSocket) (m : Machine) (w v : World) (ret : ℤ)
    → pure {A = ℤ × NetlinkSocket} (pos 0, s) m w ≡ (done (ret, t), v)
    → Progress reads messages m [] s t ret w v
unfolding numbered number_after
nothing-Progress reads messages s t m w v ret e =
    let same : w ≡ v = ap (λ x. x.1) e in
    let same_ret : pos 0 ≡ ret = cc in
    record {
      made = [];
      left = [];
      splits = refl;
      whole = λ n. refl;
      sends = rw (← same) refl;
      socket = cc;
      answers = all_made refl (rw (← same_ret) refl) same;
    }

pub address_of-Progress :
    (reads messages : ℕ) (s : NetlinkSocket) (i : NetInterface) (addr : Option ℕ) (m : Machine)
    (w v : World) (ret : ℤ) (t : NetlinkSocket)
    → address_of reads messages s i addr m w ≡ (done (ret, t), v)
    → Progress reads messages m (address_request i addr) s t ret w v
unfolding address_of add_addr_to_interface next_seq
address_of-Progress reads messages s i none m w v ret t e =
    nothing-Progress reads messages s t m w v ret e
address_of-Progress reads messages s i (some addr) m w v ret t e =
    request-Progress reads messages s _ m w v ret t e

pub route_of-Progress :
    (reads messages : ℕ) (s : NetlinkSocket) (i : NetInterface) (gateway : Option ℕ) (m : Machine)
    (w v : World) (ret : ℤ) (t : NetlinkSocket)
    → route_of reads messages s i gateway m w ≡ (done (ret, t), v)
    → Progress reads messages m (route_request i gateway) s t ret w v
unfolding route_of add_route_to_interface next_seq
route_of-Progress reads messages s i none m w v ret t e =
    nothing-Progress reads messages s t m w v ret e
route_of-Progress reads messages s i (some gateway) m w v ret t e =
    request-Progress reads messages s _ m w v ret t e

unwrap-some :
    {A B : Type 0} (o : Option A) (f : A → M B) (m : Machine) (w v : World) (b : B)
    → (unwrap o >>= f) m w ≡ (done b, v)
    → (a : A) × (o ≡ some a) × (f a m w ≡ (done b, v))
unwrap-some {A = A} none f m w v b e =
    let (a, u, e1, e2) = bind-done (panic {A = A} conversion m w) f m b v e in
    absurd (panic-NoResult conversion m w u a e1)
unwrap-some (some a) f m w v b e = (a, refl, e)

try_i32-pos : (n : ℕ) (a : ℤ) → try_i32 (pos n) ≡ some a → pos n ≡ a
unfolding try_i32
try_i32-pos n a e = ground arith

pub admin_up_of-Progress :
    (reads messages : ℕ) (s : NetlinkSocket) (i : NetInterface) (m : Machine) (w v : World)
    (ret : ℤ) (t : NetlinkSocket)
    → admin_up_of reads messages s i m w ≡ (done (ret, t), v)
    → Progress reads messages m (link_request (m.padding 1) i) s t ret w v
unfolding admin_up_of bring_interface_admin_up next_seq as_u64
admin_up_of-Progress reads messages s i m w v ret t e =
    let (index, is_i32, e') =
      unwrap-some (try_i32 (pos i.index))
        (λ x. bring_interface_admin_up reads messages s (as_u64 x)) m w v (ret, t) e in
    request-Progress reads messages s _ m w v ret t (rw (← try_i32-pos i.index index is_i32) at e')
