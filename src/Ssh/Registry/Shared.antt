-- ===== src/Ssh/Registry/Shared.antt =====
-- internal/ssh/registry.go: managers are shared, and closed all together.
use cilium_dhcp_wanip_operat.Base.{
  ℕ, zero, suc, ◌≡◌, refl, ◌∙◌, String, Option, none, some, false, List, [], ◌∷◌, Result, ok, err,
  arith, All, length,
}
use cilium_dhcp_wanip_operat.Base.Dict.{Dict, lookup, insert, lookup-insert_self}
use cilium_dhcp_wanip_operat.Ssh.Config.{RouterConfig}
use cilium_dhcp_wanip_operat.Ssh.Manager.{
  Manager, new_ssh_connection_manager, clear, finish_close, close,
}
use cilium_dhcp_wanip_operat.Ssh.Registry.{
  Registry, entries_at, config_identity, close_at, close_each, all_numbers, add_manager,
  found_or_new, get_or_create, close_all, len,
}

-- The manager with a number is stopped, or there is none.
abbrev pub StoppedAt : {H : Type 0} → List (Manager H) → ℕ → Type 0
StoppedAt [] n = Unit
StoppedAt (m ∷ ms) zero = m.started ≡ false
StoppedAt (m ∷ ms) (suc n) = StoppedAt ms n

close-started : {H : Type 0} (m : Manager H) → (close m).started ≡ false
unfolding close clear finish_close
close-started m = ground arith

close_at-StoppedAt : {H : Type 0} (n : ℕ) (ms : List (Manager H)) → StoppedAt (close_at n ms) n
close_at-StoppedAt n [] = tt
close_at-StoppedAt zero (m ∷ ms) = close-started m
close_at-StoppedAt (suc n) (m ∷ ms) = close_at-StoppedAt n ms

close_at-keeps :
    {H : Type 0} (j n : ℕ) (ms : List (Manager H)) → StoppedAt ms n → StoppedAt (close_at j ms) n
close_at-keeps j n [] s = s
close_at-keeps zero zero (m ∷ ms) s = close-started m
close_at-keeps zero (suc n) (m ∷ ms) s = s
close_at-keeps (suc j) zero (m ∷ ms) s = s
close_at-keeps (suc j) (suc n) (m ∷ ms) s = close_at-keeps j n ms s

close_each-keeps :
    {H : Type 0} (js : List ℕ) (n : ℕ) (ms : List (Manager H))
    → StoppedAt ms n
    → StoppedAt (close_each js ms) n
close_each-keeps [] n ms s = s
close_each-keeps (j ∷ js) n ms s = close_each-keeps js n (close_at j ms) (close_at-keeps j n ms s)

close_each-StoppedAt :
    {H : Type 0} (js : List ℕ) (ms : List (Manager H)) → All (StoppedAt (close_each js ms)) js
close_each-StoppedAt [] ms = tt
close_each-StoppedAt (j ∷ js) ms = (
  close_each-keeps js j (close_at j ms) (close_at-StoppedAt j ms),
  close_each-StoppedAt js (close_at j ms),
)

-- After `CloseAll` the registry is empty, and every manager that it held is stopped.
pub close_all-StoppedAt :
    {H : Type 0} (r : Registry H)
    → (len (close_all r) ≡ 0) × All (StoppedAt (close_all r).heap) (all_numbers r.managers)
unfolding close_all len
close_all-StoppedAt r = (refl, close_each-StoppedAt (all_numbers r.managers) r.heap)

entries-insert :
    (address key : String) (n : ℕ) (d : Dict (Dict ℕ)) (entries : Dict ℕ)
    → lookup key (entries_at address (insert address (insert key n entries) d)) ≡ some n
entries-insert address key n d entries =
    rw (entries_at, lookup-insert_self address (insert key n entries) d)
      (lookup-insert_self key n entries)

module _ {H : Type 0} (duration : ℕ → String) where
  added :
      (key : String) (cfg : RouterConfig) (m : Result (Manager H)) (r : Registry H) {n : ℕ}
      → (add_manager duration key cfg m r).0 ≡ ok n
      → lookup key (entries_at cfg.address (add_manager duration key cfg m r).1.managers) ≡ some n
  unfolding add_manager
  added key cfg (ok m) r {n} d =
      entries-insert cfg.address key (length r.heap) r.managers (entries_at cfg.address r.managers)
      ∙ ground (arith, d)
  added key cfg (err e) r d = ground arith

  again :
      (key : String) (cfg : RouterConfig) (o : Option ℕ) (r : Registry H) {n : ℕ}
      → lookup key (entries_at cfg.address r.managers) ≡ o
      → (found_or_new duration key cfg o r).0 ≡ ok n
      → lookup key (entries_at cfg.address (found_or_new duration key cfg o r).1.managers) ≡ some n
  unfolding found_or_new
  again key cfg (some k) r e d = e ∙ ground (arith, d)
  again key cfg none r e d = added key cfg (new_ssh_connection_manager cfg) r d

  found :
      (key : String) (cfg : RouterConfig) (o : Option ℕ) (s : Registry H) {n : ℕ}
      → o ≡ some n
      → found_or_new duration key cfg o s ≡ (ok n, s)
  unfolding found_or_new
  found key cfg (some k) s e = ground (arith, e)
  found key cfg none s e = ground arith

  -- Once `GetOrCreate` has given a manager, found or created, asking again for the same configuration gives the same manager and changes nothing.
  pub get_or_create-get_or_create :
      (cfg : RouterConfig) (r : Registry H) {n : ℕ}
      → (get_or_create duration cfg r).0 ≡ ok n
      → get_or_create duration cfg (get_or_create duration cfg r).1
        ≡ (ok n, (get_or_create duration cfg r).1)
  unfolding get_or_create
  get_or_create-get_or_create cfg r d =
      let key = config_identity duration cfg in
      let o = lookup key (entries_at cfg.address r.managers) in
      let s = (found_or_new duration key cfg o r).1 in
      found key cfg (lookup key (entries_at cfg.address s.managers)) s (again key cfg o r refl d)
