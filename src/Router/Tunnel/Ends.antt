-- ===== src/Router/Tunnel/Ends.antt =====
-- internal/router/agent_client.go: the forwarding goroutine loses no connection and ends.
use cilium_dhcp_wanip_operat.Base.{
  ◌≡◌, refl, ℕ, ◌+◌, Bool, true, false, List, [], ◌∷◌, arith, if◌then◌else◌,
}
use cilium_dhcp_wanip_operat.Router.Tunnel.{
  Point, at_select, at_accept, accepted, dialing, returned, Answers, Tunnel, new_tunnel,
  returns_now, close_local, after_accept, after_remote_dial, tunnel_at, tunnel_step, cancel,
  run_tunnel,
}

-- How many of the connections a test picks.
abbrev pub count : {A : Type 0} → (A → Bool) → List A → ℕ
count p [] = 0
count p (x ∷ xs) = (if p x then 1 else 0) + count p xs

-- The connection that the goroutine has in hand.
abbrev pub held : {N : Type 0} → Point N → List N
held (accepted conn) = conn ∷ []
held (dialing conn) = conn ∷ []
held _ = []

-- The connections that were taken are those that were closed, forwarded, or are in hand, each as
-- often; and a goroutine that has returned has closed its listener.
pub record Accounted {N : Type 0} (t : Tunnel N) : Type 0 where
  pub kept :
      (p : N → Bool)
      → count p t.taken ≡ count p t.closed + count (λ c. p c.0) t.forwarded + count p (held t.point)
  pub shut : t.point ≡ returned → t.listening ≡ false

module _ {N : Type 0} where
  at_point :
      (q : Point N) (a : Answers N) (t : Tunnel N)
      → t.point ≡ q
      → Accounted t
      → Accounted (tunnel_at q a t)
  unfolding tunnel_at returns_now close_local after_accept after_remote_dial
  at_point at_select a t e h = record {
    kept = λ p. ground (arith, e, h.kept p);
    shut = ground (arith, e);
  }
  at_point at_accept a t e h = record {
    kept = λ p. ground (arith, e, h.kept p);
    shut = ground (arith, e);
  }
  at_point (accepted conn) a t e h = record {
    kept = λ p. ground (arith, e, h.kept p);
    shut = ground (arith, e);
  }
  at_point (dialing conn) a t e h = record {
    kept = λ p. ground (arith, e, h.kept p);
    shut = ground (arith, e);
  }
  at_point returned a t e h = h

  run_tunnel-Accounted :
      (answers : List (Answers N)) (t : Tunnel N) → Accounted t → Accounted (run_tunnel answers t)
  unfolding run_tunnel tunnel_step
  run_tunnel-Accounted [] t h = h
  run_tunnel-Accounted (a ∷ rest) t h =
      run_tunnel-Accounted rest (tunnel_step a t) (at_point t.point a t refl h)

  stays :
      (answers : List (Answers N)) (t : Tunnel N)
      → t.point ≡ returned
      → (run_tunnel answers t).point ≡ returned
  unfolding run_tunnel tunnel_step tunnel_at
  stays [] t e = e
  stays (a ∷ rest) t e = stays rest (tunnel_step a t) (ground (arith, e))

  two_steps :
      (a b : Answers N) (q : Point N) (t : Tunnel N)
      → t.point ≡ q
      → t.cancelled ≡ true
      → (tunnel_step b (tunnel_at q a t)).point ≡ returned
  unfolding tunnel_at tunnel_step returns_now close_local after_accept after_remote_dial
  two_steps a b at_select t e c = ground (arith, e, c)
  two_steps a b at_accept t e c = ground (arith, e, c)
  two_steps a b (accepted conn) t e c = ground (arith, e, c)
  two_steps a b (dialing conn) t e c = ground (arith, e, c)
  two_steps a b returned t e c = ground (arith, e, c)

  start-Accounted : Accounted {N = N} new_tunnel
  start-Accounted = record { kept = λ p. refl; shut = λ e. ground (arith, e) }

  -- What is left of the loop at its end.
  pub record Ended (t : Tunnel N) : Type 0 where
    pub gone : t.point ≡ returned
    pub shut : t.listening ≡ false
    pub lossless :
        (p : N → Bool) → count p t.taken ≡ count p t.closed + count (λ c. p c.0) t.forwarded

  ended : (t : Tunnel N) → Accounted t → t.point ≡ returned → Ended t
  ended t h e = record { gone = e; shut = h.shut e; lossless = λ p. ground (arith, e, h.kept p) }

  -- Whatever the forwarding loop has done before its context is cancelled, and wherever it stands then, it returns within two steps, whatever the calls in them answer; it has closed its listener, and each connection that it has taken was closed or handed on with a connection to the agent, once.
  pub run_tunnel-Ended :
      (before : List (Answers N)) (a b : Answers N) (rest : List (Answers N))
      → Ended (run_tunnel (a ∷ b ∷ rest) (cancel (run_tunnel before new_tunnel)))
  unfolding run_tunnel
  run_tunnel-Ended before a b rest =
      let t = cancel (run_tunnel before new_tunnel) in
      let h = run_tunnel-Accounted before new_tunnel start-Accounted in
      ended (run_tunnel (a ∷ b ∷ rest) t)
        (run_tunnel-Accounted (a ∷ b ∷ rest) t (record { kept = h.kept; shut = h.shut }))
        (stays rest (tunnel_step b (tunnel_step a t)) (two_steps a b t.point t refl refl))
