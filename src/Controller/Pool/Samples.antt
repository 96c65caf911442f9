-- ===== src/Controller/Pool/Samples.antt =====
-- A cluster that serves its pools under v2alpha1 alone, and the pool operations on it.
use cilium_dhcp_wanip_operat.Base.{
  ◌≡◌, ◌≢◌, refl, String, Option, none, some, List, [], ◌∷◌, ok, lit, arith, Text, is_some, true,
}
use cilium_dhcp_wanip_operat.Base.Dict.{Dict, lookup, insert, lookup-insert_self}
use cilium_dhcp_wanip_operat.Controller.Pool.{
  Version, v2, v2alpha1, Reply, found, absent, refused, PoolApi, default_ensure_ip_in_pool,
  default_remove_ip_from_pool,
}
use cilium_dhcp_wanip_operat.Controller.Pool.Blocks.{
  Block, block_of, contains_cidr, without_cidr, drop_cidr,
}
use cilium_dhcp_wanip_operat.Controller.Pool.Contract.{PoolContract, with_cidr, serving, stored}
use cilium_dhcp_wanip_operat.Controller.Pool.Ensure.{ensure_done}
use cilium_dhcp_wanip_operat.Controller.Pool.Remove.{remove_done}
use cilium_dhcp_wanip_operat.Controller.Pool.RoundTrip.{ensured, remove-ensure}

abbrev Cluster : Type 0
Cluster = Dict (List Block)

abbrev Object : Type 0
Object = String × List Block

abbrev get_reply : String → Option (List Block) → Reply Object
get_reply n none = absent
get_reply n (some bs) = found (n, bs)

abbrev get_sample : Version → String → Cluster → Reply Object × Cluster
get_sample v2 n w = (absent, w)
get_sample v2alpha1 n w = (get_reply n (lookup n w), w)

abbrev update_sample : Version → Object → Cluster → Option Text × Cluster
update_sample v2 p w = (some (lit "the server could not find the requested resource"), w)
update_sample v2alpha1 (n, bs) w = (none, insert n bs w)

abbrev sample_api : PoolApi Cluster Object
sample_api = record {
  get_pool = get_sample;
  update_pool = update_sample;
  nested_blocks = λ p. some p.1;
  set_nested_blocks = λ p bs. ok (p.0, bs);
}

abbrev nested : Option (List Block) → Option (Option (List Block))
nested none = none
nested (some bs) = some (some bs)

abbrev sample_at : Version → String → Cluster → Option (Option (List Block))
sample_at v2 n w = none
sample_at v2alpha1 n w = nested (lookup n w)

sample_get_found :
    (v : Version) (n : String) (w : Cluster) (p : Object)
    → (get_sample v n w).0 ≡ found p
    → (sample_at v n w ≡ some (some p.1)) × (p.0 ≡ n)
sample_get_found v2 n w p h = ground arith
sample_get_found v2alpha1 n w p h = ground arith

sample_get_absent :
    (v : Version) (n : String) (w : Cluster)
    → (get_sample v n w).0 ≡ absent
    → sample_at v n w ≡ none
sample_get_absent v2 n w h = refl
sample_get_absent v2alpha1 n w h = ground arith

sample_get_keeps :
    (u v : Version) (m n : String) (w : Cluster)
    → sample_at u m (get_sample v n w).1 ≡ sample_at u m w
sample_get_keeps u v2 m n w = refl
sample_get_keeps u v2alpha1 m n w = refl

sample_update_done :
    (v : Version) (p : Object) (w : Cluster)
    → (update_sample v p w).0 ≡ none
    → sample_at v p.0 (update_sample v p w).1 ≡ some (some p.1)
sample_update_done v2 p w h = ground arith
sample_update_done v2alpha1 p w h = ground (arith, lookup-insert_self p.0 p.1 w)

sample_update_unserved :
    (u v : Version) (m : String) (p : Object) (w : Cluster)
    → u ≢ v
    → sample_at u m w ≡ none
    → sample_at u m (update_sample v p w).1 ≡ none
sample_update_unserved v2 v m p w d h = refl
sample_update_unserved v2alpha1 v2 m p w d h = h
sample_update_unserved v2alpha1 v2alpha1 m p w d h = absurd (d refl)

sample_update_failed :
    (u v : Version) (m : String) (p : Object) (w : Cluster)
    → (update_sample v p w).0 ≢ none
    → sample_at u m (update_sample v p w).1 ≡ sample_at u m w
sample_update_failed u v2 m p w h = refl
sample_update_failed u v2alpha1 m p w h = absurd (h refl)

sample_set_done :
    (p q : Object) (bs : List Block)
    → ok (p.0, bs) ≡ ok q
    → (◌≡◌ {A = Option (List Block)} (some q.1) (some bs)) × (q.0 ≡ p.0)
sample_set_done p q bs h = ground arith

abbrev sample_contract : PoolContract sample_api
sample_contract = record {
  blocks_at = sample_at;
  name_of = λ p. p.0;
  get_found = sample_get_found;
  get_absent = sample_get_absent;
  get_keeps = sample_get_keeps;
  update_done = sample_update_done;
  update_unserved = sample_update_unserved;
  update_failed = sample_update_failed;
  set_done = sample_set_done;
}

abbrev one_pool : Cluster
one_pool = ("wan", block_of "198.51.100.7/32" ∷ []) ∷ []

-- The address is added behind the block that is there, and removed again.
ensure_test :
    (default_ensure_ip_in_pool sample_api "wan" "203.0.113.9" one_pool).1
    ≡ ("wan", block_of "198.51.100.7/32" ∷ block_of "203.0.113.9/32" ∷ []) ∷ []
unfolding default_ensure_ip_in_pool lookup insert contains_cidr
ensure_test = refl

remove_test :
    (default_remove_ip_from_pool sample_api "wan" "198.51.100.7" one_pool).1 ≡ ("wan", []) ∷ []
unfolding default_remove_ip_from_pool lookup insert drop_cidr
remove_test = refl

ensure_done_example :
    let w' = (default_ensure_ip_in_pool sample_api "wan" "203.0.113.9" one_pool).1 in
    (is_some (sample_at (serving sample_contract "wan" one_pool) "wan" one_pool) ≡ true)
    × (serving sample_contract "wan" w' ≡ serving sample_contract "wan" one_pool)
    × (stored sample_contract "wan" w'
        ≡ with_cidr "203.0.113.9/32" (stored sample_contract "wan" one_pool))
unfolding default_ensure_ip_in_pool lookup contains_cidr
ensure_done_example = ensure_done sample_contract "wan" "203.0.113.9" one_pool refl

remove_done_example :
    let w' = (default_remove_ip_from_pool sample_api "wan" "198.51.100.7" one_pool).1 in
    (serving sample_contract "wan" w' ≡ serving sample_contract "wan" one_pool)
    × (stored sample_contract "wan" w'
        ≡ without_cidr "198.51.100.7/32" (stored sample_contract "wan" one_pool))
unfolding default_remove_ip_from_pool lookup drop_cidr
remove_done_example = remove_done sample_contract "wan" "198.51.100.7" one_pool refl refl

remove-ensure_example :
    stored sample_contract "wan"
      (default_remove_ip_from_pool sample_api "wan" "203.0.113.9"
        (ensured sample_contract "wan" "203.0.113.9" one_pool)).1
    ≡ stored sample_contract "wan" one_pool
unfolding default_ensure_ip_in_pool default_remove_ip_from_pool lookup insert contains_cidr
    drop_cidr
remove-ensure_example =
    remove-ensure sample_contract "wan" "203.0.113.9" one_pool refl refl refl refl

-- A cluster that refuses every request.
abbrev down_api : PoolApi Cluster Object
down_api = record {
  get_pool = λ v n w. (refused (lit "connection refused"), w);
  update_pool = λ v p w. (some (lit "connection refused"), w);
  nested_blocks = λ p. some p.1;
  set_nested_blocks = λ p bs. ok (p.0, bs);
}

down_get_found :
    (v : Version) (n : String) (w : Cluster) (p : Object)
    → refused (lit "connection refused") ≡ found p
    → (◌≡◌ {A = Option (Option (List Block))} none (some (some p.1))) × (p.0 ≡ n)
down_get_found v n w p h = cc

down_update_done :
    (v : Version) (p : Object) (w : Cluster)
    → ◌≡◌ {A = Option Text} (some (lit "connection refused")) none
    → ◌≡◌ {A = Option (Option (List Block))} none (some (some p.1))
down_update_done v p w h = cc

abbrev down_contract : PoolContract down_api
down_contract = record {
  blocks_at = λ v n w. none;
  name_of = λ p. p.0;
  get_found = down_get_found;
  get_absent = λ v n w h. refl;
  get_keeps = λ u v m n w. refl;
  update_done = down_update_done;
  update_unserved = λ u v m p w d h. refl;
  update_failed = λ u v m p w h. refl;
  set_done = sample_set_done;
}
