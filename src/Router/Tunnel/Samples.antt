-- ===== src/Router/Tunnel/Samples.antt =====
-- A tunnel that forwards a connection, fails to dial for the next, and is cancelled in `Accept`.
use cilium_dhcp_wanip_operat.Base.{◌≡◌, refl, ℕ, List, [], ◌∷◌, ok, err, lit}
use cilium_dhcp_wanip_operat.Router.Tunnel.{
  connection, Answers, Tunnel, at_accept, new_tunnel, cancel, run_tunnel,
}
use cilium_dhcp_wanip_operat.Router.Tunnel.Ends.{Ended, run_tunnel-Ended}

abbrev first : Answers ℕ
first = record { accepts = connection 1; dials = ok 101 }

abbrev second : Answers ℕ
second = record { accepts = connection 2; dials = err (lit "connection refused") }

abbrev third : Answers ℕ
third = record { accepts = connection 3; dials = ok 103 }

abbrev two_connections : List (Answers ℕ)
two_connections = first ∷ first ∷ first ∷ first ∷ second ∷ second ∷ second ∷ second ∷ third ∷ []

abbrev served : Tunnel ℕ
unfolding run_tunnel
served = run_tunnel two_connections new_tunnel

served_test :
    (served.point ≡ at_accept)
    × (served.forwarded ≡ (1, 101) ∷ [])
    × (served.closed ≡ 2 ∷ [])
    × ((run_tunnel (third ∷ third ∷ []) (cancel served)).closed ≡ 3 ∷ 2 ∷ [])
unfolding served run_tunnel
served_test = (refl, refl, refl, refl)

run_tunnel-Ended_example :
    Ended (run_tunnel (third ∷ third ∷ []) (cancel (run_tunnel two_connections new_tunnel)))
run_tunnel-Ended_example = run_tunnel-Ended two_connections third third []
