-- ===== src/Agent/Box/Laws.antt =====
-- The small host keeps the laws that the properties of the agent ask for.
use text.Mathlib.TextEquality.{eq_iff}
use cilium_dhcp_wanip_operat.Base.{
  ◌≡◌, refl, String, Bool, false, Option, none, some, List, [], ◌∷◌, arith, ◌==◌, if◌then◌else◌,
}
use cilium_dhcp_wanip_operat.Base.Dict.{Dict, lookup}
use cilium_dhcp_wanip_operat.Agent.Network.Links.{KernelLaws}
use cilium_dhcp_wanip_operat.Agent.State.{Lease}
use cilium_dhcp_wanip_operat.Agent.Store.{member, without}
use cilium_dhcp_wanip_operat.Agent.Rollback.{QuietHost}
use cilium_dhcp_wanip_operat.Agent.Box.{Box, kernel, move, box}

abbrev pub has_link : Box → String → Bool
has_link b n = member n b.links

abbrev pub own_name : String → String
own_name l = l

member-without :
    (n j : String) (ls : List String)
    → member j (without n ls) ≡ (if n == j then false else member j ls)
member-without n j [] = ground arith
member-without n j (x ∷ xs) =
    ground (arith, member-without n j xs, eq_iff x n, eq_iff x j, eq_iff n j)

pub kernel-KernelLaws : KernelLaws kernel has_link own_name
kernel-KernelLaws = record {
  look_up = λ n w j. refl;
  named = λ n w l d. ground arith;
  none_there = λ n w e d. ground arith;
  added = λ n p mac w l d. (ground arith, ground arith, λ j. ground arith);
  not_added = λ n p mac w e d j. ground arith;
  set_up = λ l w j. refl;
  deleted = λ l w u d j. member-without l j w.links;
  not_deleted = λ l w e d j. ground arith;
  neigh_kept = λ l ip w j. refl;
  file_kept = λ path text w j. refl;
}

move-links :
    (old new : String) (o : Option (Dict Lease)) (b : Box) → (move old new o b).1.links ≡ b.links
move-links old new none b = refl
move-links old new (some d) b = refl

pub box-QuietHost : QuietHost box has_link
box-QuietHost = record {
  write_state = λ path text w j. ground arith;
  rename = λ old new w j. rw (move-links old new (lookup old w.files) w) refl;
  acquire_lease = λ iface mac w j. refl;
  send_gratuitous_arp = λ iface ip mac n w j. refl;
  now = λ w j. refl;
}
