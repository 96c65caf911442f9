-- ===== src/Ssh/Registry/Entries.antt =====
-- internal/ssh/registry.go: the entries of the registry after one was added, or an address deleted.
use text.Mathlib.TextEquality.{eq_iff}
use cilium_dhcp_wanip_operat.Base.{
  ◌⊎◌, ◌≡◌, ap, ℕ, String, Bool, true, false, some, ◌==◌, arith, inl, inr, none, ◌&&◌, Bool-cases,
  if◌then◌else◌,
}
use cilium_dhcp_wanip_operat.Base.Dict.{Dict, lookup, insert, delete, lookup-insert, lookup-delete}
use cilium_dhcp_wanip_operat.Ssh.Registry.{entries_at}

pub lookup-gone :
    (address other key : String) (n : ℕ) (d : Dict (Dict ℕ)) (b : Bool)
    → (address == other) ≡ b
    → lookup key (entries_at other (delete address d)) ≡ some n
    → lookup key (entries_at other d) ≡ some n
unfolding lookup
lookup-gone address other key n d true t e =
    absurd (ground (arith, e, lookup-delete address other d, t))
lookup-gone address other key n d false t e = ground (arith, e, lookup-delete address other d, t)

-- An entry is the one that was added, or was there before.
pub lookup-new :
    (address key other k : String) (n : ℕ) (d : Dict (Dict ℕ)) (b c : Bool) {j : ℕ}
    → (address == other) ≡ b
    → (key == k) ≡ c
    → lookup k (entries_at other (insert address (insert key n (entries_at address d)) d)) ≡ some j
    → ((address ≡ other) × (key ≡ k) × (j ≡ n)) ⊎ (lookup k (entries_at other d) ≡ some j)
lookup-new address key other k n d true true t u e = inl (
  (eq_iff address other).0 t,
  (eq_iff key k).0 u,
  ground (
    arith,
    e,
    t,
    u,
    lookup-insert address other (insert key n (entries_at address d)) d,
    lookup-insert key k n (entries_at address d),
  ),
)
lookup-new address key other k n d true false t u e = inr (
    ground (
      arith,
      e,
      t,
      u,
      ap (λ a. lookup k (entries_at a d)) ((eq_iff address other).0 t),
      lookup-insert address other (insert key n (entries_at address d)) d,
      lookup-insert key k n (entries_at address d),
    ))
lookup-new address key other k n d false c t u e =
    inr (ground (arith, e, t, lookup-insert address other (insert key n (entries_at address d)) d))

pub entries-gone :
    (address other key : String) (d : Dict (Dict ℕ))
    → lookup key (entries_at other (delete address d))
      ≡ (if address == other then none else lookup key (entries_at other d))
unfolding lookup
entries-gone address other key d = ground (arith, lookup-delete address other d)

pub entries-add :
    (address key other k : String) (n : ℕ) (d : Dict (Dict ℕ))
    → lookup k (entries_at other (insert address (insert key n (entries_at address d)) d))
      ≡ (if address == other && key == k then some n else lookup k (entries_at other d))
entries-add address key other k n d = elim (Bool-cases (address == other)) [
  | inl t ↦ ground (
    arith,
    t,
    ap (λ a. lookup k (entries_at a d)) ((eq_iff address other).0 t),
    lookup-insert address other (insert key n (entries_at address d)) d,
    lookup-insert key k n (entries_at address d),
  )
  | inr t ↦ ground (arith, t, lookup-insert address other (insert key n (entries_at address d)) d)
]
