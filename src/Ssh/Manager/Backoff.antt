-- ===== src/Ssh/Manager/Backoff.antt =====
-- internal/ssh/manager.go: the waits of `reconnectLoop`.
use Prim.Native.Nat.{min}
use native.Mathlib.Nat.{pow-suc}
use native.Mathlib.Decide.{dec_lt}
use cilium_dhcp_wanip_operat.Base.{
  ◌≡◌, refl, ◌∙◌, ap, ◌++◌, ℕ, zero, suc, ◌*◌, ◌^◌, ◌≤◌, ◌<◌, List, [], ◌∷◌, Text, err, Result,
  arith,
}
use cilium_dhcp_wanip_operat.Ssh.Manager.{
  Manager, Call, retries, step, run_calls, next_backoff, reconnect_attempt,
}

-- `n` dials that fail.
abbrev pub failures : {H : Type 0} → ℕ → Text → List (Call H)
failures zero e = []
failures (suc n) e = retries (err e) ∷ failures n e

one-le-pow : (n : ℕ) → 1 ≤ 2 ^ n
one-le-pow zero = omega arith
one-le-pow (suc n) = omega (arith, one-le-pow n, pow-suc 2 n)

capped : (b max p : ℕ) → 1 ≤ p → max < b * 2 → min (max * p) max ≡ min (b * (p * 2)) max
capped b max zero h k = absurd (omega arith)
capped b max (suc p) h k = grind arith

-- Below 2^62 a doubled duration does not overflow.
next-min : (max b : ℕ) → max < 2 ^ 62 → b ≤ max → next_backoff max b ≡ min (b * 2) max
next-min max b f h = ground arith

doubled :
    (b n max : ℕ)
    → max < 2 ^ 62
    → b ≤ max
    → min (next_backoff max b * 2 ^ n) max ≡ min (b * 2 ^ suc n) max
doubled b n max f l = rw (next-min max b f l) (elim (dec_lt max (b * 2)) [
  | yes h ↦
      let e : min (b * 2) max ≡ max = omega (arith, h) in
      rw (e, pow-suc 2 n) (capped b max (2 ^ n) (one-le-pow n) h)
  | no h ↦
      let e : min (b * 2) max ≡ b * 2 = omega (arith, h) in
      rw (e, pow-suc 2 n) (ap (λ (t : ℕ). min t max) (omega arith))
])

-- The waits after `n` failures, the last first: from `b`, each twice the one before, up to `max`.
abbrev pub doubling : ℕ → ℕ → ℕ → List ℕ
doubling max b zero = []
doubling max b (suc n) = min (b * 2 ^ n) max ∷ doubling max b n

doubling-shift :
    (n b max : ℕ) (ws : List ℕ)
    → max < 2 ^ 62
    → b ≤ max
    → doubling max (next_backoff max b) n ++ b ∷ ws ≡ doubling max b (suc n) ++ ws
doubling-shift zero b max ws f l = ap (λ (t : ℕ). t ∷ ws) (omega (arith, l))
doubling-shift (suc n) b max ws f l =
    rw (doubled b n max f l)
      (ap (λ ts. min (b * 2 ^ suc n) max ∷ ts) (doubling-shift n b max ws f l))

module _ {H : Type 0} (parse : List ℕ → Result ℕ) (e : Text) where
  failed_attempt :
      (m : Manager H)
      → 0 < m.reconnect_loops
      → step parse m (retries (err e)) ≡ record m {
        waits = m.backoff ∷ m.waits;
        backoff = next_backoff m.config.max_backoff m.backoff;
      }
  unfolding step reconnect_attempt
  failed_attempt m l = ground arith

  -- With a largest wait below 2^62 nanoseconds, which is 146 years: while dialling fails, a reconnecting manager stays as it is but for its waits. It waits after each failure, first for the wait that it starts with, and each time twice as long as before, up to the largest wait; and so it would after the next failure.
  pub backoff_doubles :
      (n : ℕ) (m : Manager H)
      → 0 < m.reconnect_loops
      → m.config.max_backoff < 2 ^ 62
      → m.backoff ≤ m.config.max_backoff
      → let max = m.config.max_backoff in
        run_calls parse m (failures n e) ≡ record m {
          waits = doubling max m.backoff n ++ m.waits;
          backoff = min (m.backoff * 2 ^ n) max;
        }
  unfolding run_calls
  backoff_doubles zero m l f h = ap (λ (b : ℕ). record m { backoff = b }) (omega (arith, h))
  backoff_doubles (suc n) m l f h =
      let max = m.config.max_backoff in
      let next = next_backoff max m.backoff in
      let fits : next ≤ max = rw (next-min max m.backoff f h) (omega arith) in
      ap (λ (k : Manager H). run_calls parse k (failures n e)) (failed_attempt m l)
      ∙ backoff_doubles n (record m { waits = m.backoff ∷ m.waits; backoff = next }) l f fits
      ∙ rw (doubled m.backoff n max f h, doubling-shift n m.backoff max m.waits f h) refl
