-- ===== src/Old/Client/Relay.antt =====
-- What an older client is to do in the thread of `svpn_handle_thread`, without its buffers and its
-- counts. On OS X four bytes stand before each packet of the tunnel, on Linux none.
use s_vpn.Common.{ℕ, List, [], ◌∷◌, ◌++◌, length, drop, if◌then◌else◌, ltb, Option, none, some}
use s_vpn.Crypt.{CodeTable}
use s_vpn.Crypt.Codes.{encode_all, decode_all}
use s_vpn.Traffic.Packet.{Packet, to_tun, to_net}
use s_vpn.Traffic.Turn.{Turn, drop_it, pass_it, then_relay, both}
use s_vpn.Old.Client.{Selected, interrupted, failed, ready, Round}

module _ (header : List ℕ) (ct : CodeTable) (server_addr : List ℕ) where
  abbrev pub relay_out : Option (List ℕ) → Turn
  relay_out none = drop_it
  relay_out (some p) =
      if ltb (length p) (length header)
      then drop_it
      else pass_it (to_net (encode_all ct (drop (length header) p)) server_addr ∷ [])

  abbrev pub relay_in : Option (List ℕ) → Turn
  relay_in none = drop_it
  relay_in (some d) = pass_it (to_tun (header ++ decode_all ct d) ∷ [])

  -- `none` is the end of the loop.
  abbrev pub relay_selected : Round → Selected → Option Turn
  relay_selected r interrupted = none
  relay_selected r failed = some drop_it
  relay_selected r (ready tun sock) =
      some (both sock (if tun then relay_out r.tun_read else pass_it []) (relay_in r.received))

  abbrev pub relay : List Round → Option (List Packet)
  relay [] = some []
  relay (r ∷ rs) = then_relay (relay_selected r r.selected) (relay rs)
