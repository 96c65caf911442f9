-- ===== src/Agent/Garp.antt =====
-- internal/agent/network/garp.go: the frame of a gratuitous ARP, and how often it is sent. Sockets
-- are a parameter. A frame is a list of bytes.
pub mod Frame
use cilium_dhcp_wanip_operat.Base.{
  ℕ, zero, suc, ◌+◌, ◌-◌, ◌*◌, ◌/◌, ◌%◌, ◌^◌, String, List, [], ◌∷◌, ◌++◌, Text, lit, fmt, Result,
  ok, err, ltb, take, length, if◌then◌else◌,
}
use cilium_dhcp_wanip_operat.Base.Action.{Action, returns, wrapping, ◌>>=◌, ◌>>◌}

abbrev pub zeros : ℕ → List ℕ
zeros zero = []
zeros (suc n) = 0 ∷ zeros n

-- `copy(packet[i : i+n], source)` into zeros.
abbrev pub copied : ℕ → List ℕ → List ℕ
copied n source = take n source ++ zeros (n - length source)

-- The shifts of a `uint16`; their bits do not overlap.
abbrev pub htons : ℕ → ℕ
htons v = v * 2 ^ 8 % 2 ^ 16 + v / 2 ^ 8

-- `ip` is what `To4` gives: four bytes, or none.
unfoldable pub build_gratuitous_arp : List ℕ → List ℕ → List ℕ
build_gratuitous_arp mac ip =
    copied 6 (255 ∷ 255 ∷ 255 ∷ 255 ∷ 255 ∷ 255 ∷ [])
    ++ (copied 6 mac
        ++ (8 ∷ 6 ∷ 0 ∷ 1 ∷ 8 ∷ 0 ∷ 6 ∷ 4 ∷ 0 ∷ 1 ∷ []
            ++ (copied 6 mac
                ++ (copied 4 ip ++ (copied 6 (0 ∷ 0 ∷ 0 ∷ 0 ∷ 0 ∷ 0 ∷ []) ++ copied 4 ip)))))

-- The socket calls: an interface's index, the socket for a protocol, and sending a frame on it to a
-- protocol and an interface.
pub record Sockets (W : Type 0) : Type 0 where
  pub interface_by_name : String → Action W ℕ
  pub packet_socket : ℕ → Action W ℕ
  pub send_to : ℕ → List ℕ → ℕ → ℕ → Action W (Unit {0})
  pub sleep : ℕ → W → W
  pub close : ℕ → W → W

module _ {W : Type 0} (s : Sockets W) where
  -- `if i < count-1 { time.Sleep(…) }`, with `left` attempts after this one.
  abbrev pause : ℕ → Action W (Unit {0})
  pause zero w = (ok tt, w)
  pause (suc left) w = (ok tt, s.sleep 200000000 w)

  -- The loop, with the attempts that are left.
  unfoldable pub send_times : ℕ → (fd index : ℕ) → List ℕ → Action W (Unit {0})
  send_times zero fd index packet = returns tt
  send_times (suc left) fd index packet = do
    wrapping "failed to send gratuitous ARP: %w" (s.send_to fd packet (htons 2054) index)
    pause left
    send_times left fd index packet

  -- `defer func() { _ = syscall.Close(fd) }()`
  abbrev closing : ℕ → Result (Unit {0}) × W → Result (Unit {0}) × W
  closing fd (r, w) = (r, s.close fd w)

  unfoldable pub send_gratuitous_arp : String → List ℕ → List ℕ → ℕ → Action W (Unit {0})
  unfolding send_times
  send_gratuitous_arp iface ip mac count = do
    index ← wrapping "failed to get interface: %w" (s.interface_by_name iface)
    fd ← wrapping "failed to create raw socket: %w" (s.packet_socket (htons 2054))
    (λ w. closing fd (send_times count fd index (build_gratuitous_arp mac ip) w))
