-- ===== src/Client/Relay.antt =====
-- What a client is to do, without its buffers and its counts: the packets that go to the tunnel and
-- to the net.
use s_vpn.Common.{ℕ, ◌/◌, List, [], ◌∷◌, byte_at, ◌==◌, if◌then◌else◌, Bool, Option, none, some}
use s_vpn.Crypt.{CodeTable}
use s_vpn.Crypt.Codes.{encode_all, decode_all}
pub use s_vpn.Traffic.Packet.{Packet, to_tun, to_net}
use s_vpn.Client.Loop.{Selected, interrupted, failed, ready, Round}
pub use s_vpn.Traffic.Turn.{Turn, drop_it, pass_it, packets_before, then_relay, both}

module _ (ct : CodeTable) (server_addr : List ℕ) where
  abbrev pub relay_out : Option (List ℕ) → Turn
  relay_out none = drop_it
  relay_out (some p) = pass_it (to_net (encode_all ct p) server_addr ∷ [])

  -- Only IPv4 goes to the tunnel.
  abbrev pub relay_in : Option (List ℕ) → Turn
  relay_in none = drop_it
  relay_in (some d) =
      if byte_at (decode_all ct d) 0 / 16 == 4
      then pass_it (to_tun (decode_all ct d) ∷ [])
      else drop_it

  -- A round: the packet first, and the datagram unless the read failed.
  abbrev pub then_in : Bool → Round → Turn → Turn
  then_in sock r first = both sock first (relay_in r.received)

  -- `none` is the end of the loop.
  abbrev pub relay_selected : Round → Selected → Option Turn
  relay_selected r interrupted = none
  relay_selected r failed = some drop_it
  relay_selected r (ready tun sock) =
      some (then_in sock r (if tun then relay_out r.tun_read else pass_it []))

  abbrev pub relay : List Round → Option (List Packet)
  relay [] = some []
  relay (r ∷ rs) = then_relay (relay_selected r r.selected) (relay rs)
