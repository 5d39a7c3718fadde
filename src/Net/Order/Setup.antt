-- ===== src/Net/Order/Setup.antt =====
-- src/net.rs: the three loops of setup_networking send the requests of the plan, in its order.
use ginit.Base.{
  ℕ, ◌≡◌, ◌⊎◌, inl, inr, ap, true, false, Bool-cases, ℤ, is_neg, List, [], ◌++◌, append-nil,
  append_assoc, if◌then◌else◌,
}
use ginit.Machine.{World, Machine, done, M, pure, ◌>>=◌}
use ginit.Machine.Runs.{bind-done}
use ginit.Config.{NetInterface}
use ginit.Net.{NetlinkSocket, start_iwd, address_of, admin_up_of, route_of, for_each, configure}
use ginit.Net.Order.{
  sent, Requests, numbered, address_request, link_request, route_request, for_all, plan,
  Acknowledged, Progress,
}
use ginit.Net.Order.One.{address_of-Progress, route_of-Progress, admin_up_of-Progress}
use ginit.Net.Order.Loops.{join-Progress, stop-Progress, for_each-Progress}

-- How the loops and what follows them come to an end: with the first negative result, or with all
-- requests sent and the start of the wireless daemon.
pub record Configured (reads messages : ℕ) (requests : Requests) (s : NetlinkSocket) (m : Machine)
    (w v : World) (ret : ℤ) : Type 0 where
  pub made : Requests
  pub left : Requests
  pub behind : World
  pub splits : requests ≡ made ++ left
  pub sends : sent s.fd behind.history ≡ numbered s.seq made (sent s.fd w.history)
  pub answer : ℤ
  pub answers : Acknowledged reads messages m s made answer w behind
  pub ends :
      ((answer ≡ ret) × (is_neg ret ≡ true) × (behind ≡ v))
      ⊎ ((is_neg answer ≡ false) × (left ≡ []) × (start_iwd m behind ≡ (done ret, v)))

failed-Configured :
    (reads messages : ℕ) (requests : Requests) (s t : NetlinkSocket) (m : Machine) (w u v : World)
    (r ret : ℤ)
    → Progress reads messages m requests s t r w u
    → is_neg r ≡ true
    → pure r m u ≡ (done ret, v)
    → Configured reads messages requests s m w v ret
failed-Configured reads messages requests s t m w u v r ret p n e =
    let same : r ≡ ret = cc in
    record {
      made = p.made;
      left = p.left;
      behind = u;
      splits = p.splits;
      sends = p.sends;
      answer = r;
      answers = p.answers;
      ends = inl (same, rw (← same) n, ap (λ x. x.1) e);
    }

finished-Configured :
    (reads messages : ℕ) (requests : Requests) (s t : NetlinkSocket) (m : Machine) (w u v : World)
    (r ret : ℤ)
    → Progress reads messages m requests s t r w u
    → (if is_neg r then pure r else start_iwd) m u ≡ (done ret, v)
    → (is_neg r ≡ true) ⊎ (is_neg r ≡ false)
    → Configured reads messages requests s m w v ret
finished-Configured reads messages requests s t m w u v r ret p e (inl n) =
    failed-Configured reads messages requests s t m w u v r ret p n (rw n at e)
finished-Configured reads messages requests s t m w u v r ret p e (inr n) = record {
  made = p.made;
  left = p.left;
  behind = u;
  splits = p.splits;
  sends = p.sends;
  answer = r;
  answers = p.answers;
  ends = inr (n, p.whole n, rw n at e);
}

-- A loop behind others.
loop-Configured :
    (reads messages : ℕ) (as' bs cs : Requests) (loop : NetlinkSocket → M (ℤ × NetlinkSocket))
    (next : ℤ → NetlinkSocket → M ℤ) (s s1 : NetlinkSocket) (m : Machine) (w u v : World)
    (r1 ret : ℤ)
    → Progress reads messages m as' s s1 r1 w u
    → (if is_neg r1 then pure r1 else (loop s1 >>= λ x. next x.0 x.1)) m u ≡ (done ret, v)
    → ((w' v' : World) (r : ℤ) (t : NetlinkSocket)
        → loop s1 m w' ≡ (done (r, t), v')
        → Progress reads messages m bs s1 t r w' v')
    → ((u' : World) (r2 : ℤ) (s2 : NetlinkSocket)
        → Progress reads messages m (as' ++ bs) s s2 r2 w u'
        → next r2 s2 m u' ≡ (done ret, v)
        → Configured reads messages ((as' ++ bs) ++ cs) s m w v ret)
    → (is_neg r1 ≡ true) ⊎ (is_neg r1 ≡ false)
    → Configured reads messages ((as' ++ bs) ++ cs) s m w v ret
loop-Configured reads messages as' bs cs loop next s s1 m w u v r1 ret p e one k (inl n) =
    rw (append_assoc as' bs cs) (
      failed-Configured reads messages (as' ++ (bs ++ cs)) s s1 m w u v r1 ret
        (stop-Progress reads messages m as' (bs ++ cs) s s1 r1 w u p n) n (rw n at e))
loop-Configured reads messages as' bs cs loop next s s1 m w u v r1 ret p e one k (inr n) =
    let ((r2, s2), u', e1, e2) =
      bind-done (loop s1 m u) (λ (x : ℤ × NetlinkSocket). next x.0 x.1) m ret v (rw n at e) in
    k u' r2 s2 (join-Progress reads messages m as' bs s s1 s2 r1 r2 w u u' p n (one u u' r2 s2 e1))
      e2

module _ (reads messages : ℕ) (interfaces : List NetInterface) (m : Machine) where
  abbrev addresses : NetlinkSocket → M (ℤ × NetlinkSocket)
  addresses s = for_each reads messages (λ s' i. address_of reads messages s' i i.addr) s interfaces

  abbrev links : NetlinkSocket → M (ℤ × NetlinkSocket)
  links s = for_each reads messages (admin_up_of reads messages) s interfaces

  abbrev routes : NetlinkSocket → M (ℤ × NetlinkSocket)
  routes s = for_each reads messages (λ s' i. route_of reads messages s' i i.gateway) s interfaces

  abbrev behind_routes : ℤ → NetlinkSocket → M ℤ
  behind_routes r s = if is_neg r then pure r else start_iwd

  abbrev behind_links : ℤ → NetlinkSocket → M ℤ
  behind_links r s = if is_neg r then pure r else (routes s >>= λ x. behind_routes x.0 x.1)

  abbrev behind_addresses : ℤ → NetlinkSocket → M ℤ
  behind_addresses r s = if is_neg r then pure r else (links s >>= λ x. behind_links x.0 x.1)

  abbrev address_requests : Requests
  address_requests = for_all (λ i. address_request i i.addr) interfaces

  abbrev link_requests : Requests
  link_requests = for_all (link_request (m.padding 1)) interfaces

  abbrev route_requests : Requests
  route_requests = for_all (λ i. route_request i i.gateway) interfaces

  behind_links-Configured :
      (s s2 : NetlinkSocket) (w u v : World) (r2 ret : ℤ)
      → Progress reads messages m (address_requests ++ link_requests) s s2 r2 w u
      → behind_links r2 s2 m u ≡ (done ret, v)
      → Configured reads messages
          ((address_requests ++ link_requests) ++ route_requests)
          s
          m
          w
          v
          ret
  behind_links-Configured s s2 w u v r2 ret p e =
      rw (← append-nil ((address_requests ++ link_requests) ++ route_requests)) (
        loop-Configured reads messages (address_requests ++ link_requests) route_requests [] routes
          behind_routes s s2 m w u v r2 ret p e
          (λ w' v' r t.
            for_each-Progress reads messages _ _ m
              (λ s' i. route_of-Progress reads messages s' i i.gateway m) s2 interfaces w' v' r t)
          (λ u' r3 s3 p' e'.
            rw (append-nil ((address_requests ++ link_requests) ++ route_requests)) (
              finished-Configured reads messages _ s s3 m w u' v r3 ret p' e'
                (Bool-cases (is_neg r3))))
          (Bool-cases (is_neg r2)))

  behind_addresses-Configured :
      (s s1 : NetlinkSocket) (w u v : World) (r1 ret : ℤ)
      → Progress reads messages m address_requests s s1 r1 w u
      → behind_addresses r1 s1 m u ≡ (done ret, v)
      → Configured reads messages
          ((address_requests ++ link_requests) ++ route_requests)
          s
          m
          w
          v
          ret
  behind_addresses-Configured s s1 w u v r1 ret p e =
      loop-Configured reads messages address_requests link_requests route_requests links
        behind_links s s1 m w u v r1 ret p e
        (λ w' v' r t.
          for_each-Progress reads messages _ _ m
            (λ s' i. admin_up_of-Progress reads messages s' i m) s1 interfaces w' v' r t)
        (λ u' r2 s2 p' e'. behind_links-Configured s s2 w u' v r2 ret p' e')
        (Bool-cases (is_neg r1))

-- Whatever the kernel answers, if the configuration of the interfaces comes to an end, the
-- requests on the socket are those of the plan, in its order and with consecutive numbers: all of
-- them, and then the wireless daemon is started, or those up to the first whose result is negative,
-- which is the result.
pub configure-Configured :
    (reads messages : ℕ) (interfaces : List NetInterface) (s : NetlinkSocket) (m : Machine)
    (w v : World) (ret : ℤ)
    → configure reads messages interfaces s m w ≡ (done ret, v)
    → Configured reads messages (plan (m.padding 1) interfaces) s m w v ret
unfolding configure plan
configure-Configured reads messages interfaces s m w v ret e =
    let ((r1, s1), u, e1, e2) =
      bind-done (addresses reads messages interfaces m s m w)
        (λ (x : ℤ × NetlinkSocket). behind_addresses reads messages interfaces m x.0 x.1) m ret v
        e in
    rw
      (← append_assoc (address_requests reads messages interfaces m)
        (link_requests reads messages interfaces m) (route_requests reads messages interfaces m))
      (behind_addresses-Configured reads messages interfaces m s s1 w u v r1 ret
        (for_each-Progress reads messages _ _ m
          (λ s' i. address_of-Progress reads messages s' i i.addr m) s interfaces w u r1 s1 e1)
        e2)
