-- ===== src/Controller/Names/Collisions.antt =====
-- internal/controller/publicipclaim_controller.go: names of claims that share an interface.
use mathlib.Core.List.{map-append}
use cilium_dhcp_wanip_operat.Base.{
  ◌≡◌, ◌≤◌, refl, ap, ℕ, zero, suc, String, List, [], ◌∷◌, ◌++◌, map, arith, length, take,
  length-map,
}
use Prim.Native.String
use cilium_dhcp_wanip_operat.Base.Codes.{codes, codes-append}
use cilium_dhcp_wanip_operat.Controller.Names.{
  keep_or_dash, to_lower, sanitize, generated_interface,
}

take_of_append : (n : ℕ) (xs ys : List ℕ) → n ≤ length xs → take n (xs ++ ys) ≡ take n xs
take_of_append zero xs ys h = refl
take_of_append (suc n) [] ys h = absurd (omega arith)
take_of_append (suc n) (x ∷ xs) ys h = ap (◌∷◌ x) (take_of_append n xs ys (omega arith))

take-length : (n : ℕ) (xs : List ℕ) → length xs ≤ n → take n xs ≡ xs
take-length zero [] h = refl
take-length zero (x ∷ xs) h = absurd (omega arith)
take-length (suc n) [] h = refl
take-length (suc n) (x ∷ xs) h = ap (◌∷◌ x) (take-length n xs (omega arith))

sanitize-take : (name : List ℕ) → sanitize name ≡ take 10 (map keep_or_dash (map to_lower name))
unfolding sanitize
sanitize-take name = ground (arith, take-length 10 (map keep_or_dash (map to_lower name)))

sanitize-append : (xs ys : List ℕ) → 10 ≤ length xs → sanitize (xs ++ ys) ≡ sanitize xs
sanitize-append xs ys h =
    rw
      (
        sanitize-take (xs ++ ys),
        sanitize-take xs,
        map-append to_lower xs ys,
        map-append keep_or_dash (map to_lower xs) (map to_lower ys),
      )
      (take_of_append 10 (map keep_or_dash (map to_lower xs)) (map keep_or_dash (map to_lower ys))
        (omega (arith, length-map keep_or_dash (map to_lower xs), length-map to_lower xs)))

-- Two claims whose names agree on their first ten characters get the same generated interface name, however the names go on.
pub generated_interface_collides :
    (shared s t : String)
    → 10 ≤ length (codes shared)
    → generated_interface (String.◌++◌ shared s) ≡ generated_interface (String.◌++◌ shared t)
unfolding generated_interface
generated_interface_collides shared s t h =
    rw
      (
        codes-append shared s,
        codes-append shared t,
        sanitize-append (codes shared) (codes s) h,
        sanitize-append (codes shared) (codes t) h,
      )
      refl
