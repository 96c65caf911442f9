-- ===== src/Agent/Network/Links.antt =====
-- internal/agent/network/config.go: which interfaces there are after a macvlan is created or deleted.
use text.Mathlib.TextEquality.{eq_iff}
use cilium_dhcp_wanip_operat.Base.{
  ◌≡◌, refl, sym, ◌∙◌, ap, ◌⊎◌, inl, inr, String, Bool, true, false, Text, Result, ok, err, arith,
  ◌==◌, if◌then◌else◌,
}
use cilium_dhcp_wanip_operat.Base.Action.{continue, wrap_result, wrapping}
use cilium_dhcp_wanip_operat.Agent.Quiet.{bind-Quiet}
use cilium_dhcp_wanip_operat.Agent.Network.{
  Kernel, LinkReply, found, not_found, unreadable, IoReply, written, missing, refused, need_link,
  need_written, setup_interface, set_up_or_delete, add_unless_found, create_macvlan, delete_link,
  delete_macvlan,
}

-- The names of links are those of `has`, and a link that was found or added has the name asked for.
pub record KernelLaws {W L : Type 0} (k : Kernel W L) (has : W → String → Bool)
    (name_of : L → String) : Type 0 where
  pub look_up : (n : String) (w : W) (j : String) → has (k.link_by_name n w).1 j ≡ has w j
  pub named : (n : String) (w : W) (l : L) → (k.link_by_name n w).0 ≡ found l → name_of l ≡ n
  pub none_there :
      (n : String) (w : W) (e : Text) → (k.link_by_name n w).0 ≡ not_found e → has w n ≡ false
  pub added :
      (n : String) (p : L) (mac : String) (w : W) (l : L)
      → (k.add_macvlan n p mac w).0 ≡ ok l
      → (name_of l ≡ n)
        × (has w n ≡ false)
        × ((j : String) → has (k.add_macvlan n p mac w).1 j ≡ (if n == j then true else has w j))
  pub not_added :
      (n : String) (p : L) (mac : String) (w : W) (e : Text)
      → (k.add_macvlan n p mac w).0 ≡ err e
      → (j : String) → has (k.add_macvlan n p mac w).1 j ≡ has w j
  pub set_up : (l : L) (w : W) (j : String) → has (k.link_set_up l w).1 j ≡ has w j
  pub deleted :
      (l : L) (w : W) (u : Unit {0})
      → (k.link_del l w).0 ≡ ok u
      → (j : String) → has (k.link_del l w).1 j ≡ (if name_of l == j then false else has w j)
  pub not_deleted :
      (l : L) (w : W) (e : Text)
      → (k.link_del l w).0 ≡ err e
      → (j : String) → has (k.link_del l w).1 j ≡ has w j
  pub neigh_kept :
      (l : L) (ip : String) (w : W) (j : String) → has (k.neigh_set l ip w).1 j ≡ has w j
  pub file_kept :
      (path text : String) (w : W) (j : String) → has (k.write_file path text w).1 j ≡ has w j

module _ {W L : Type 0} (k : Kernel W L) {has : W → String → Bool} {name_of : L → String}
    (laws : KernelLaws k has name_of) where
  -- The interfaces are those of `w`, but for `n`, which is there or not.
  abbrev pub Only : String → Bool → W → W → Type 0
  Only n b w v = (j : String) → has v j ≡ (if n == j then b else has w j)

  delete_found-Only :
      (n : String) (l : L) (w : W) {u : Unit {0}}
      → name_of l ≡ n
      → (r : Result (Unit {0})) → (k.link_del l w).0 ≡ r
      → wrap_result "failed to delete interface: %w" r ≡ ok u
      → Only n false w (k.link_del l w).1
  delete_found-Only n l w e (ok u) d o j = rw (sym e) (laws.deleted l w u d j)
  delete_found-Only n l w e (err x) d o j = ground arith

  delete_link-Only :
      (n : String) (r : LinkReply L) (w : W) {u : Unit {0}}
      → ((l : L) → r ≡ found l → name_of l ≡ n)
      → ((e : Text) → r ≡ not_found e → has w n ≡ false)
      → (delete_link k (r, w)).0 ≡ ok u
      → Only n false w (delete_link k (r, w)).1
  unfolding delete_link
  delete_link-Only n (found l) w f g d j =
      delete_found-Only n l w (f l refl) (k.link_del l w).0 refl d j
  delete_link-Only n (not_found e) w f g d j = ground (arith, g e refl, eq_iff n j)
  delete_link-Only n (unreadable e) w f g d j = ground arith

  -- Deleting an interface, if it succeeds, leaves all others, and not this one.
  pub delete_macvlan-Only :
      (n : String) (w : W) {u : Unit {0}}
      → (delete_macvlan k n w).0 ≡ ok u
      → Only n false w (delete_macvlan k n w).1
  unfolding delete_macvlan
  delete_macvlan-Only n w d j =
      delete_link-Only n (k.link_by_name n w).0 (k.link_by_name n w).1 (laws.named n w)
        (λ e q. laws.look_up n w n ∙ laws.none_there n w e q) d j
      ∙ ap (λ b. if n == j then false else b) (laws.look_up n w j)

  -- A deletion of the interface that ended in the state `v`, since netlink answered the deletion
  -- or the look-up of it with an error.
  abbrev pub DeleteFailed : String → W → Type 0
  DeleteFailed n v =
      ((l : L) × (u : W) × (e : Text) × (name_of l ≡ n) × (k.link_del l u ≡ (err e, v)))
      ⊎ ((u : W) × (e : Text) × (k.link_by_name n u ≡ (unreadable e, v)))

  -- The interfaces are those of `w` again, unless a deletion failed.
  abbrev pub Undone : String → W → W → Type 0
  Undone n w v = ((j : String) → has v j ≡ has w j) ⊎ DeleteFailed n v

  -- After an interface was to be created: it is there, which it was not, or everything is undone.
  abbrev pub Created : String → W → Result (Unit {0}) × W → Type 0
  Created n w (ok u, v) = (has w n ≡ false) × Only n true w v
  Created n w (err e, v) = Undone n w v

  after_delete :
      (n : String) (l : L) (w v : W)
      → name_of l ≡ n
      → has w n ≡ false
      → Only n true w v
      → (r : Result (Unit {0})) → (k.link_del l v).0 ≡ r
      → Undone n w (k.link_del l v).1
  after_delete n l w v e absent only (ok u) d =
      inl (λ j. ground (arith, e, absent, only j, laws.deleted l v u d j, eq_iff n j))
  after_delete n l w v e absent only (err x) d =
      inr (inl (l, v, x, e, ap (λ r. (r, (k.link_del l v).1)) d))

  set_up-Created :
      (n : String) (l : L) (w v : W)
      → name_of l ≡ n
      → has w n ≡ false
      → Only n true w v
      → (r : Result (Unit {0})) (v' : W) → ((j : String) → has v' j ≡ has v j)
      → Created n w (set_up_or_delete k l (r, v'))
  unfolding set_up_or_delete
  set_up-Created n l w v e absent only (ok u) v' same = (absent, λ j. same j ∙ only j)
  set_up-Created n l w v e absent only (err x) v' same =
      after_delete n l w v' e absent (λ j. same j ∙ only j) (k.link_del l v').0 refl

  add-Created :
      (n : String) (p : L) (mac : String) (w : W) (r : Result L)
      → (k.add_macvlan n p mac w).0 ≡ r
      → Created n w (
          continue
            (wrap_result "failed to create macvlan interface: %w" r, (k.add_macvlan n p mac w).1)
            (λ link u. set_up_or_delete k link (k.link_set_up link u)))
  add-Created n p mac w (ok l) d =
      let (e, absent, only) = laws.added n p mac w l d in
      let v = (k.add_macvlan n p mac w).1 in
      set_up-Created n l w v e absent only (k.link_set_up l v).0 (k.link_set_up l v).1
        (laws.set_up l v)
  add-Created n p mac w (err e) d = inl (laws.not_added n p mac w e d)

  Created-same :
      (n : String) (w v : W) (r : Result (Unit {0}) × W)
      → ((j : String) → has v j ≡ has w j)
      → Created n v r
      → Created n w r
  Created-same n w v (ok u, z) same c =
      (sym (same n) ∙ c.0, λ j. c.1 j ∙ ap (λ b. if n == j then true else b) (same j))
  Created-same n w v (err e, z) same (inl c) = inl (λ j. c j ∙ same j)
  Created-same n w v (err e, z) same (inr f) = inr f

  add_unless-Created :
      (n : String) (p : L) (mac : String) (r : LinkReply L) (w : W)
      → Created n w (add_unless_found k n p mac (r, w))
  unfolding add_unless_found
  add_unless-Created n p mac (found l) w = inl (λ j. refl)
  add_unless-Created n p mac (not_found e) w =
      add-Created n p mac w (k.add_macvlan n p mac w).0 refl
  add_unless-Created n p mac (unreadable e) w =
      add-Created n p mac w (k.add_macvlan n p mac w).0 refl

  with_parent :
      (n mac message : String) (r : LinkReply L) (w : W)
      → Created n w (
          continue
            (need_link k message (r, w))
            (λ above u. add_unless_found k n above mac (k.link_by_name n u)))
  unfolding need_link
  with_parent n mac message (found l) w =
      let (r, v) = k.link_by_name n w in
      Created-same n w v (add_unless_found k n l mac (r, v)) (laws.look_up n w)
        (add_unless-Created n l mac r v)
  with_parent n mac message (not_found e) w = inl (λ j. refl)
  with_parent n mac message (unreadable e) w = inl (λ j. refl)

  -- Creating an interface: it was not there and is there then, or the interfaces are as before, unless the deletion after a failed start failed.
  pub create_macvlan-Created :
      (n parent mac : String) (w : W) → Created n w (create_macvlan k n parent mac w)
  unfolding create_macvlan
  create_macvlan-Created n parent mac w =
      let (r, v) = k.link_by_name parent w in
      Created-same n w v (create_macvlan k n parent mac w) (laws.look_up parent w)
        (with_parent n mac _ r v)

  need_written-same :
      (message : String) (r : IoReply) (w v : W)
      → ((j : String) → has v j ≡ has w j)
      → (j : String) → has (need_written k message (r, v)).1 j ≡ has w j
  unfolding need_written
  need_written-same message written w v same = same
  need_written-same message (missing e) w v same = same
  need_written-same message (refused e) w v same = same

  write-same :
      (message path text : String) (w : W) (j : String)
      → has (need_written k message (k.write_file path text w)).1 j ≡ has w j
  write-same message path text w =
      need_written-same message (k.write_file path text w).0 w (k.write_file path text w).1
        (laws.file_kept path text w)

  need_link-same :
      (message : String) (r : LinkReply L) (w : W) (j : String)
      → has (need_link k message (r, w)).1 j ≡ has w j
  unfolding need_link
  need_link-same message (found l) w j = refl
  need_link-same message (not_found e) w j = refl
  need_link-same message (unreadable e) w j = refl

  -- The settings of an interface change no interface.
  pub setup_interface-same :
      (iface ip : String) (w : W) (j : String) → has (setup_interface k iface ip w).1 j ≡ has w j
  unfolding setup_interface
  setup_interface-same iface ip =
      bind-Quiet has (λ w. need_link k _ (k.link_by_name iface w)) _
        (λ w j.
          need_link-same _ (k.link_by_name iface w).0 (k.link_by_name iface w).1 j
          ∙ laws.look_up iface w j)
        (λ link.
          bind-Quiet has (λ w. need_written k _ (k.write_file _ "1" w)) _ (write-same _ _ "1")
            (λ u.
              bind-Quiet has (wrapping "failed to add neighbor proxy: %w" (k.neigh_set link ip)) _
                (laws.neigh_kept link ip) (λ u. write-same _ _ "0")))

  del_failed :
      (n : String) (l : L) (w : W) {e : Text} (r : Result (Unit {0}))
      → name_of l ≡ n
      → (k.link_del l w).0 ≡ r
      → wrap_result "failed to delete interface: %w" r ≡ err e
      → DeleteFailed n (k.link_del l w).1
  del_failed n l w (ok u) e d f = ground arith
  del_failed n l w (err x) e d f = inl (l, w, x, e, ap (λ r. (r, (k.link_del l w).1)) d)

  delete_failed :
      (n : String) (u : W) (r : LinkReply L) (w : W) {e : Text}
      → k.link_by_name n u ≡ (r, w)
      → (delete_link k (r, w)).0 ≡ err e
      → DeleteFailed n (delete_link k (r, w)).1
  unfolding delete_link
  delete_failed n u (found l) w q d =
      del_failed n l w (k.link_del l w).0 (laws.named n u l (ap (λ p. p.0) q)) refl d
  delete_failed n u (not_found x) w q d = ground arith
  delete_failed n u (unreadable x) w q d = inr (u, x, q)

  restored :
      (n : String) (w v : W)
      → has w n ≡ false
      → Only n true w v
      → (r : Result (Unit {0})) → (delete_macvlan k n v).0 ≡ r
      → Undone n w (delete_macvlan k n v).1
  unfolding delete_macvlan
  restored n w v absent only (ok u) d =
      inl (λ j. ground (arith, absent, only j, delete_macvlan-Only n v {u = u} d j, eq_iff n j))
  restored n w v absent only (err e) d =
      inr (delete_failed n v (k.link_by_name n v).0 (k.link_by_name n v).1 refl d)

  -- An interface that is deleted again, which was not there before.
  pub delete_macvlan-Undone :
      (n : String) (w v : W)
      → has w n ≡ false
      → Only n true w v
      → Undone n w (delete_macvlan k n v).1
  delete_macvlan-Undone n w v absent only = restored n w v absent only (delete_macvlan k n v).0 refl
