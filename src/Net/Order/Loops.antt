-- ===== src/Net/Order/Loops.antt =====
-- src/net.rs: what one loop over the interfaces sends.
use ginit.Base.{
  ℕ, ◌+◌, ◌%◌, ◌^◌, ◌≡◌, ◌⊎◌, inl, inr, refl, ap, ◌∙◌, true, false, Bool-cases, ℤ, is_neg, Bytes,
  List, [], ◌∷◌, ◌++◌, append-nil, append_assoc, if◌then◌else◌,
}
use ginit.Machine.{Outcome, World, Machine, done, M, pure}
use ginit.Machine.Runs.{bind-done}
use ginit.Config.{NetInterface}
use ginit.Net.{NetlinkSocket, for_each}
use ginit.Net.Order.{
  sent, Requests, numbered, number_after, for_all, advanced, Acknowledged, all_made, refused,
  accepted, Progress,
}
use ginit.Net.Order.One.{nothing-Progress}

numbered-append :
    (seq : ℕ) (as' bs : Requests) (before : List Bytes)
    → numbered seq (as' ++ bs) before ≡ numbered (number_after seq as') bs (numbered seq as' before)
unfolding numbered number_after
numbered-append seq [] bs before = refl
numbered-append seq (r ∷ as') bs before =
    numbered-append ((seq + 1) % 2 ^ 32) as' bs (r seq ∷ before)

number_after-append :
    (seq : ℕ) (as' bs : Requests)
    → number_after seq (as' ++ bs) ≡ number_after (number_after seq as') bs
unfolding number_after
number_after-append seq [] bs = refl
number_after-append seq (r ∷ as') bs = number_after-append ((seq + 1) % 2 ^ 32) as' bs

join-Acknowledged :
    (reads messages : ℕ) (m : Machine) (as' bs : Requests) (s : NetlinkSocket) (r1 r2 : ℤ)
    (w u v : World)
    → Acknowledged reads messages m s as' r1 w u
    → is_neg r1 ≡ false
    → Acknowledged reads messages m (record s { seq = number_after s.seq as' }) bs r2 u v
    → Acknowledged reads messages m s (as' ++ bs) r2 w v
unfolding number_after
join-Acknowledged reads messages m as' bs s r1 r2 w u v (all_made z k e) n q = rw (z, e) (rw z at q)
join-Acknowledged reads messages m as' bs s r1 r2 w u v (refused r z k e) n q = absurd cc
join-Acknowledged reads messages m _ bs s r1 r2 w u v (accepted {requests = as'} {u = x} r k e p) n
      q =
    accepted r k e (join-Acknowledged reads messages m as' bs (advanced s) r1 r2 x u v p n q)

-- A part that succeeds, and the next one.
pub join-Progress :
    (reads messages : ℕ) (m : Machine) (as' bs : Requests) (s s1 s2 : NetlinkSocket) (r1 r2 : ℤ)
    (w u v : World)
    → Progress reads messages m as' s s1 r1 w u
    → is_neg r1 ≡ false
    → Progress reads messages m bs s1 s2 r2 u v
    → Progress reads messages m (as' ++ bs) s s2 r2 w v
join-Progress reads messages m as' bs s s1 s2 r1 r2 w u v p n q =
    let all : as' ≡ p.made = p.splits ∙ rw (p.whole n) (append-nil p.made) in
    let fd_is : s1.fd ≡ s.fd = ap (λ (x : NetlinkSocket). x.fd) p.socket in
    let seq_is : s1.seq ≡ number_after s.seq p.made = ap (λ (x : NetlinkSocket). x.seq) p.socket in
    record {
      made = p.made ++ q.made;
      left = q.left;
      splits = rw (append_assoc p.made q.made q.left, ← q.splits, ← all) refl;
      whole = q.whole;
      sends =
          rw (fd_is, seq_is) at q.sends
          ∙ rw (p.sends, numbered-append s.seq p.made q.made (sent s.fd w.history)) refl;
      socket = rw (fd_is, seq_is) at q.socket ∙ rw (number_after-append s.seq p.made q.made) refl;
      answers =
          join-Acknowledged reads messages m p.made q.made s r1 r2 w u v p.answers n
            (rw p.socket at q.answers);
    }

-- A part that fails.
pub stop-Progress :
    (reads messages : ℕ) (m : Machine) (as' bs : Requests) (s s1 : NetlinkSocket) (r : ℤ)
    (w u : World)
    → Progress reads messages m as' s s1 r w u
    → is_neg r ≡ true
    → Progress reads messages m (as' ++ bs) s s1 r w u
stop-Progress reads messages m' as' bs s s1 r w u p n = record {
  made = p.made;
  left = p.left ++ bs;
  splits = ap (λ x. x ++ bs) p.splits ∙ append_assoc p.made p.left bs;
  whole = λ m. absurd cc;
  sends = p.sends;
  socket = p.socket;
  answers = p.answers;
}

step-Progress :
    (reads messages : ℕ) (m : Machine) (s s1 t : NetlinkSocket) (as' bs : Requests)
    (rest : M (ℤ × NetlinkSocket)) (w u v : World) (r1 ret : ℤ)
    → Progress reads messages m as' s s1 r1 w u
    → (if is_neg r1 then pure (r1, s1) else rest) m u ≡ (done (ret, t), v)
    → (rest m u ≡ (done (ret, t), v) → Progress reads messages m bs s1 t ret u v)
    → (is_neg r1 ≡ true) ⊎ (is_neg r1 ≡ false)
    → Progress reads messages m (as' ++ bs) s t ret w v
step-Progress reads messages m s s1 t as' bs rest w u v r1 ret p e k (inl n) =
    let stopped : ◌≡◌ {A = Outcome (ℤ × NetlinkSocket) × World} (done (r1, s1), u)
        (done (ret, t), v) =
      rw n at e in
    let same_ret : r1 ≡ ret = cc in
    let same_socket : s1 ≡ t = cc in
    let same_world : u ≡ v = ap (λ x. x.1) stopped in
    rw (← same_ret, ← same_socket, ← same_world)
      (stop-Progress reads messages m as' bs s s1 r1 w u p n)
step-Progress reads messages m s s1 t as' bs rest w u v r1 ret p e k (inr n) =
    join-Progress reads messages m as' bs s s1 t r1 ret w u v p n (k (rw n at e))

module _ (reads messages : ℕ) (body : NetlinkSocket → NetInterface → M (ℤ × NetlinkSocket))
    (f : NetInterface → Requests) (m : Machine)
    (one : (s : NetlinkSocket) (i : NetInterface) (w v : World) (ret : ℤ) (t : NetlinkSocket)
      → body s i m w ≡ (done (ret, t), v)
      → Progress reads messages m (f i) s t ret w v) where
  pub for_each-Progress :
      (s : NetlinkSocket) (interfaces : List NetInterface) (w v : World) (ret : ℤ)
      (t : NetlinkSocket)
      → for_each reads messages body s interfaces m w ≡ (done (ret, t), v)
      → Progress reads messages m (for_all f interfaces) s t ret w v
  unfolding for_each for_all
  for_each-Progress s [] w v ret t e = nothing-Progress reads messages s t m w v ret e
  for_each-Progress s (i ∷ interfaces) w v ret t e =
      let ((r1, s1), u, e1, e2) =
        bind-done (body s i m w)
          (λ (x : ℤ × NetlinkSocket).
            if is_neg x.0 then pure (x.0, x.1) else for_each reads messages body x.1 interfaces)
          m (ret, t) v e in
      step-Progress reads messages m s s1 t (f i) (for_all f interfaces)
        (for_each reads messages body s1 interfaces) w u v r1 ret (one s i w u r1 s1 e1) e2
        (for_each-Progress s1 interfaces u v ret t) (Bool-cases (is_neg r1))
