-- ===== src/Ssh/Manager/Handlers.antt =====
-- internal/ssh/manager.go: the event handlers of a manager.
use cilium_dhcp_wanip_operat.Base.{
  ◌≡◌, refl, ℕ, suc, ◌+◌, ◌^◌, ◌≤◌, ◌<◌, Option, none, some, List, [], ◌∷◌, ◌++◌, All, All-append,
  Result, ok, err, subst, length, length-append, arith,
}
use cilium_dhcp_wanip_operat.Ssh.Config.{RouterConfig}
use cilium_dhcp_wanip_operat.Ssh.Manager.{
  Manager, put_handler, drop_handler, register_handler, unregister_handler, handler_count, inc64,
  Call, starts, ticks, retries, closes, parent_ends, registers, unregisters, step, run_calls, start,
  keep_alive_tick, reconnect_attempt, close, parent_done, fresh,
}

-- The ids of the handlers lie between one and the sequence number.
abbrev pub IdsBelow : {H : Type 0} → ℕ → List (ℕ × H) → Type 0
IdsBelow n hs = All (λ h. (0 < h.0) × (h.0 ≤ n)) hs

wraps_not : (n : ℕ) → n + 1 < 2 ^ 64 → inc64 n ≡ suc n
wraps_not n h = omega arith

module _ {H : Type 0} where
  put-fresh :
      (n : ℕ) (h : H) (hs : List (ℕ × H))
      → IdsBelow n hs
      → put_handler (suc n) h hs ≡ hs ++ (suc n, h) ∷ []
  unfolding put_handler
  put-fresh n h [] b = refl
  put-fresh n h ((j, g) ∷ hs) b = ground (arith, put-fresh n h hs b.1)

  drop-fresh : (n : ℕ) (hs : List (ℕ × H)) → IdsBelow n hs → drop_handler (suc n) hs ≡ hs
  unfolding drop_handler
  drop-fresh n [] b = refl
  drop-fresh n ((j, g) ∷ hs) b = ground (arith, drop-fresh n hs b.1)

  drop-append :
      (n : ℕ) (h : H) (hs : List (ℕ × H))
      → IdsBelow n hs
      → drop_handler (suc n) (hs ++ (suc n, h) ∷ []) ≡ hs
  unfolding drop_handler
  drop-append n h [] b = ground arith
  drop-append n h ((j, g) ∷ hs) b = ground (arith, drop-append n h hs b.1)

  grow : (n : ℕ) (hs : List (ℕ × H)) → IdsBelow n hs → IdsBelow (suc n) hs
  grow n [] b = tt
  grow n ((j, g) ∷ hs) b = ((b.0.0, omega arith), grow n hs b.1)

  drop-IdsBelow : (n id : ℕ) (hs : List (ℕ × H)) → IdsBelow n hs → IdsBelow n (drop_handler id hs)
  unfolding drop_handler
  drop-IdsBelow n id [] b = tt
  drop-IdsBelow n id ((j, g) ∷ hs) b = ground (arith, drop-IdsBelow n id hs b.1)

  -- What the handlers of a manager keep: ids in range, of which at most `k` were given.
  pub record Numbered (k : ℕ) (m : Manager H) : Type 0 where
    pub below : IdsBelow m.handler_seq m.handlers
    pub few : m.handler_seq ≤ k

  register-Numbered :
      (k : ℕ) (m : Manager H) (h : Option H)
      → suc k < 2 ^ 64
      → Numbered k m
      → Numbered (suc k) (register_handler h m).1
  unfolding register_handler
  register-Numbered k m none l v = record { below = v.below; few = omega arith }
  register-Numbered k m (some h) l v =
      let n = m.handler_seq in
      let small : n + 1 < 2 ^ 64 = omega (arith, v.few) in
      record {
        below = rw (wraps_not n small) (
            rw (put-fresh n h m.handlers v.below) (
              All-append (λ g. (0 < g.0) × (g.0 ≤ suc n)) m.handlers ((suc n, h) ∷ [])
                (grow n m.handlers v.below) ((omega arith, omega arith), tt)));
        few = rw (wraps_not n small) (omega (arith, v.few));
      }

  keeps-Numbered :
      (k : ℕ) (m n : Manager H)
      → n.handlers ≡ m.handlers
      → n.handler_seq ≡ m.handler_seq
      → Numbered k m
      → Numbered (suc k) n
  keeps-Numbered k m n e d v = record { below = rw (e, d) v.below; few = omega (arith, v.few) }

module _ {H : Type 0} (parse : List ℕ → Result ℕ) where
  step-Numbered :
      (k : ℕ) (m : Manager H) (c : Call H)
      → suc k < 2 ^ 64
      → Numbered k m
      → Numbered (suc k) (step parse m c)
  unfolding step start keep_alive_tick reconnect_attempt close parent_done unregister_handler
  step-Numbered k m (starts (ok c)) l v = keeps-Numbered k m _ (ground arith) (ground arith) v
  step-Numbered k m (starts (err e)) l v = keeps-Numbered k m _ (ground arith) (ground arith) v
  step-Numbered k m (ticks run) l v = keeps-Numbered k m _ (ground arith) (ground arith) v
  step-Numbered k m (retries (ok c)) l v = keeps-Numbered k m _ (ground arith) (ground arith) v
  step-Numbered k m (retries (err e)) l v = keeps-Numbered k m _ (ground arith) (ground arith) v
  step-Numbered k m closes l v = keeps-Numbered k m _ (ground arith) (ground arith) v
  step-Numbered k m parent_ends l v = keeps-Numbered k m _ (ground arith) (ground arith) v
  step-Numbered k m (registers h) l v = register-Numbered k m h l v
  step-Numbered k m (unregisters id) l v = record {
    below = ground (arith, v.below, drop-IdsBelow m.handler_seq id m.handlers v.below);
    few = ground (arith, v.few);
  }

  run_calls-Numbered :
      (k : ℕ) (m : Manager H) (cs : List (Call H))
      → k + length cs < 2 ^ 64
      → Numbered k m
      → Numbered (k + length cs) (run_calls parse m cs)
  unfolding run_calls
  run_calls-Numbered k m [] l v = record { below = v.below; few = omega (arith, v.few) }
  run_calls-Numbered k m (c ∷ cs) l v =
      subst (λ (n : ℕ). Numbered n (run_calls parse (step parse m c) cs)) (omega arith)
        (run_calls-Numbered (suc k) (step parse m c) cs (omega arith)
          (step-Numbered k m c (omega arith) v))

  -- After fewer than 2^64 - 1 calls on a new manager, in any order, a new handler gets an id that is not zero, joins the handlers at the end, and unregistering that id gives back exactly the handlers that were there.
  pub unregister-register :
      (cfg : RouterConfig) (cs : List (Call H)) (h : H)
      → length cs + 1 < 2 ^ 64
      → let m = run_calls parse (fresh cfg) cs in
        let (id, after) = register_handler (some h) m in
        (0 < id)
        × (after.handlers ≡ m.handlers ++ (id, h) ∷ [])
        × (handler_count after ≡ handler_count m + 1)
        × ((unregister_handler id after).handlers ≡ m.handlers)
  unfolding register_handler unregister_handler
  unregister-register cfg cs h k =
      let m = run_calls parse (fresh cfg) cs in
      let v =
        run_calls-Numbered 0 (fresh cfg) cs (omega arith)
          (record { below = tt; few = omega arith }) in
      let hs = m.handlers in
      let n = m.handler_seq in
      rw (wraps_not n (omega (arith, v.few))) (
        omega arith,
        put-fresh n h hs v.below,
        rw (put-fresh n h hs v.below) (omega (arith, length-append hs ((suc n, h) ∷ []))),
        rw (put-fresh n h hs v.below) (ground (arith, drop-append n h hs v.below)),
      )
