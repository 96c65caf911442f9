-- ===== src/Agent/Garp/Frame.antt =====
-- internal/agent/network/garp.go: the frame read by the layout of Ethernet and RFC 826.
use cilium_dhcp_wanip_operat.Base.{
  ℕ, zero, suc, ◌+◌, ◌*◌, ◌/◌, ◌%◌, ◌^◌, ◌<◌, ◌≡◌, refl, List, [], ◌∷◌, arith, take, length,
}
use cilium_dhcp_wanip_operat.Agent.Garp.{zeros, htons, build_gratuitous_arp}

abbrev pub drop : ℕ → List ℕ → List ℕ
drop zero xs = xs
drop (suc n) [] = []
drop (suc n) (x ∷ xs) = drop n xs

-- The bytes of a frame from a position on.
abbrev pub field : ℕ → ℕ → List ℕ → List ℕ
field start size frame = take size (drop start frame)

-- A number of two bytes, the high one first.
abbrev pub big_endian : List ℕ → ℕ
big_endian (a ∷ b ∷ []) = a * 256 + b
big_endian _ = 0

-- What a receiver reads in the frame of an ARP request over Ethernet for IPv4.
pub record ArpFrame (frame : List ℕ) (sender_mac sender_ip target_mac target_ip : List ℕ)
    : Type 0 where
  pub to_all : field 0 6 frame ≡ 255 ∷ 255 ∷ 255 ∷ 255 ∷ 255 ∷ 255 ∷ []
  pub from : field 6 6 frame ≡ sender_mac
  pub ether_type : big_endian (field 12 2 frame) ≡ 2054
  pub hardware_type : big_endian (field 14 2 frame) ≡ 1
  pub protocol_type : big_endian (field 16 2 frame) ≡ 2048
  pub sizes : field 18 2 frame ≡ 6 ∷ 4 ∷ []
  pub opcode : big_endian (field 20 2 frame) ≡ 1
  pub sender_hardware : field 22 6 frame ≡ sender_mac
  pub sender_protocol : field 28 4 frame ≡ sender_ip
  pub target_hardware : field 32 6 frame ≡ target_mac
  pub target_protocol : field 38 4 frame ≡ target_ip
  pub size : length frame ≡ 42

-- For a hardware address of six bytes and an address of four, a receiver reads in the frame a broadcast ARP request from this hardware address, in which both the sender and the target are the address, and the target's hardware address is zero; the frame has 42 bytes.
pub build_gratuitous_arp-ArpFrame :
    (a b c d e f i j k l : ℕ)
    → let mac = a ∷ b ∷ c ∷ d ∷ e ∷ f ∷ [] in
      let ip = i ∷ j ∷ k ∷ l ∷ [] in ArpFrame (build_gratuitous_arp mac ip) mac ip (zeros 6) ip
unfolding build_gratuitous_arp
build_gratuitous_arp-ArpFrame a b c d e f i j k l = record {
  to_all = refl;
  from = refl;
  ether_type = refl;
  hardware_type = refl;
  protocol_type = refl;
  sizes = refl;
  opcode = refl;
  sender_hardware = refl;
  sender_protocol = refl;
  target_hardware = refl;
  target_protocol = refl;
  size = refl;
}

-- Converting a number of sixteen bits twice gives the number, and once swaps its two bytes.
pub htons-htons : (v : ℕ) → v < 2 ^ 16 → (htons (htons v) ≡ v) × (htons v ≡ v % 256 * 256 + v / 256)
htons-htons v h = (omega (arith, h), omega (arith, h))
