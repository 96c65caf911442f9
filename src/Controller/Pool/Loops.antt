-- ===== src/Controller/Pool/Loops.antt =====
-- What the two loops over the blocks of a pool compute.
use mathlib.Core.List.{append-nil, append_assoc}
use cilium_dhcp_wanip_operat.Base.{
  ◌≡◌, refl, ◌∙◌, String, Bool, true, false, List, [], ◌∷◌, ◌++◌, arith, ◌||◌, inl, inr, Bool-cases,
  eq_refl,
}
use cilium_dhcp_wanip_operat.Controller.Pool.Blocks.{
  Block, has_cidr, block_of, contains_cidr, drop_cidr, without_cidr,
}

pub drop_cidr-eq :
    (c : String) (bs new : List Block) (r : Bool)
    → drop_cidr c bs new r ≡ (new ++ without_cidr c bs, r || contains_cidr c bs)
unfolding drop_cidr contains_cidr
drop_cidr-eq c [] new r = ground (arith, append-nil new)
drop_cidr-eq c (b ∷ bs) new r = elim (Bool-cases (has_cidr c b)) [
  | inl h ↦ rw h (drop_cidr-eq c bs new true ∙ ground arith)
  | inr h ↦ rw h (
      drop_cidr-eq c bs (new ++ b ∷ []) r ∙ rw (append_assoc new (b ∷ []) (without_cidr c bs)) refl)
]

pub contains-without : (c : String) (bs : List Block) → contains_cidr c (without_cidr c bs) ≡ false
unfolding contains_cidr
contains-without c [] = refl
contains-without c (b ∷ bs) = ground (arith, contains-without c bs)

pub contains-append_self :
    (c : String) (bs : List Block) → contains_cidr c (bs ++ block_of c ∷ []) ≡ true
unfolding contains_cidr
contains-append_self c [] = rw (eq_refl c)
contains-append_self c (b ∷ bs) = ground (arith, contains-append_self c bs)

-- Blocks of which none has the cidr are all kept.
pub without-of_not_contains :
    (c : String) (bs : List Block) → contains_cidr c bs ≡ false → without_cidr c bs ≡ bs
unfolding contains_cidr
without-of_not_contains c [] h = refl
without-of_not_contains c (b ∷ bs) h = ground (arith, without-of_not_contains c bs)

pub without-append :
    (c : String) (bs : List Block) → without_cidr c (bs ++ block_of c ∷ []) ≡ without_cidr c bs
without-append c [] = rw (eq_refl c)
without-append c (b ∷ bs) = ground (arith, without-append c bs)
