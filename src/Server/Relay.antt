-- ===== src/Server/Relay.antt =====
-- What the server is to do, without its buffers, its statistics and its messages: a map from the
-- users' numbers to their entries, and the packets that go to the tunnel and to the net.
use s_vpn.Common.{
  ℕ, List, [], ◌∷◌, ◌++◌, map, byte_at, ◌==◌, if◌then◌else◌, Bool, true, false, Option, none, some,
}
pub use s_vpn.Traffic.Packet.{Packet, to_tun, to_net}
use s_vpn.Server.Loop.{ClientNode, is_source, Selected, interrupted, failed, ready, Round}

abbrev pub Peers : Type 0
Peers = ℕ → Option ClientNode

-- The users, the packets, and whether the rest of the round is left out.
pub record Turn : Type 0 where
  pub peers : Peers
  pub packets : List Packet
  pub drops : Bool

abbrev pub drop_it : Peers → Turn
drop_it peers = record { peers = peers; packets = []; drops = true }

abbrev pub pass_it : Peers → List Packet → Turn
pass_it peers packets = record { peers = peers; packets = packets; drops = false }

abbrev pub enter : Peers → ℕ → ClientNode → Peers
enter peers uid node j = if uid == j then some node else peers j

-- A datagram `d` of the user that its first byte names.
abbrev pub admit : List ℕ → Peers → List ℕ → List ℕ → Option ClientNode → Turn
admit net peers d from none = drop_it peers
admit net peers d from (some node) =
    let p = map (λ b. byte_at node.table.decode b) d in
    if is_source p net (byte_at d 0)
    then pass_it (enter peers (byte_at d 0) (record node { addr = from })) (to_tun p ∷ [])
    else drop_it peers

abbrev pub relay_in : List ℕ → Peers → Option (List ℕ × List ℕ) → Turn
relay_in net peers none = drop_it peers
relay_in net peers (some (d, from)) = admit net peers d from (peers (byte_at d 0))

-- A packet `p` for the user that the last byte of its destination names.
abbrev pub forward : Peers → List ℕ → Option ClientNode → Turn
forward peers p none = drop_it peers
forward peers p (some node) =
    pass_it peers (to_net (map (λ b. byte_at node.table.encode b) p) node.addr ∷ [])

abbrev pub relay_out : Peers → Option (List ℕ) → Turn
relay_out peers none = drop_it peers
relay_out peers (some p) = forward peers p (peers (byte_at p 19))

-- A round: the datagram first, and the packet unless the datagram was dropped.
abbrev pub then_out : Bool → Round → Turn → Turn
then_out tun r first =
    if first.drops
    then first
    else (if tun
        then (let second = relay_out first.peers r.tun_read in
            record second { packets = first.packets ++ second.packets })
        else first)

abbrev pub relay_selected : List ℕ → Peers → Round → Selected → Turn
relay_selected net peers r interrupted = drop_it peers
relay_selected net peers r failed = drop_it peers
relay_selected net peers r (ready sock tun) =
    then_out tun r (if sock then relay_in net peers r.received else pass_it peers [])

abbrev pub relay_round : List ℕ → Peers → Round → Turn
relay_round net peers r = relay_selected net peers r r.selected

-- The users after the rounds, and the packets of all.
abbrev pub relay : List ℕ → Peers → List Round → Peers × List Packet
relay net peers [] = (peers, [])
relay net peers (r ∷ rs) =
    let first = relay_round net peers r in
    let (peers', packets) = relay net first.peers rs in (peers', first.packets ++ packets)
