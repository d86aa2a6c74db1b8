-- ===== src/Traffic/Packet.antt =====
-- What an abstract account of a loop sends: packets to its tunnel, datagrams to an address.
use s_vpn.Common.{ℕ, List}

pub data Packet : Type 0 where
  to_tun : List ℕ → Packet
  to_net : List ℕ → List ℕ → Packet
