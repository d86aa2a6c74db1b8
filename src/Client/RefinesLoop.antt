-- ===== src/Client/RefinesLoop.antt =====
-- The select loop of the client does what the relay does.
use s_vpn.Traffic.Refining as Refining
use s_vpn.Common.{ℕ, refl, List, [], ◌∷◌, if◌then◌else◌, Bool, true, false, Option, some}
use s_vpn.Common.Control.{go_on, ◌>>=◌}
use s_vpn.Crypt.{CodeTable}
use s_vpn.Client.Loop.{
  Loop, Selected, interrupted, failed, ready, Round, Outcome, tun_part, sock_part, dispatch, round,
  handle_thread,
}
use s_vpn.Client.Relay.{Packet, Turn, pass_it, relay_in, then_in, relay_selected, relay}
use s_vpn.Client.Refines.{packets_of, packets_of-append, IsClient, FitsOut, FitsIn, AllFit}
use s_vpn.Client.RefinesParts.{Follows, tun_part-Follows, sock_part-Follows}

module _ (ct : CodeTable) (server_addr : List ℕ) where
  -- The end of a round.
  abbrev pub Yields : Outcome → Option Turn → Type 0
  Yields o turn = Refining.Yields (IsClient ct server_addr) packets_of o turn

  both_parts :
      (r : Round) (sock : Bool) (o : Outcome) (turn : Turn)
      → Follows ct server_addr o turn
      → FitsIn r.received
      → Yields
          (o >>= λ t. if sock then sock_part t r.received else go_on t [])
          (some (then_in ct server_addr sock r turn))
  both_parts r sock o turn h fits =
      Refining.both-Yields (IsClient ct server_addr) packets_of packets_of-append refl sock o
        (λ t. sock_part t r.received) turn (relay_in ct server_addr r.received) h
        (λ t c. sock_part-Follows ct server_addr t r.received c fits)

  dispatch-Yields :
      (r : Round) (s : Loop) (sel : Selected)
      → IsClient ct server_addr s
      → FitsOut r.tun_read
      → FitsIn r.received
      → Yields (dispatch r s sel) (relay_selected ct server_addr r sel)
  unfolding dispatch
  dispatch-Yields r s interrupted c fits fits' = tt
  dispatch-Yields r s failed c fits fits' = (c, refl)
  dispatch-Yields r s (ready true sock) c fits fits' =
      both_parts r sock (tun_part r s r.tun_read) _
        (tun_part-Follows ct server_addr r s r.tun_read c fits) fits'
  dispatch-Yields r s (ready false sock) c fits fits' =
      both_parts r sock (go_on s []) (pass_it []) (refl, c, refl) fits'

  pub round-Yields :
      (r : Round) (s : Loop)
      → IsClient ct server_addr s
      → FitsOut r.tun_read
      → FitsIn r.received
      → Yields (round r s) (relay_selected ct server_addr r r.selected)
  unfolding round
  round-Yields r s c fits fits' = dispatch-Yields r s r.selected c fits fits'

  abbrev pub Refines : Outcome → Option (List Packet) → Type 0
  Refines o packets = Refining.Refines (IsClient ct server_addr) packets_of o packets

  -- Whatever the rounds bring, with arrays of 4096 bytes, packets of at most 4096 bytes and datagrams
  -- of 1 to 4096 bytes, the client's loop does what the relay does: it returns just where the relay
  -- ends, at a round whose `select` was interrupted, and else the packets that it sends and writes, in
  -- their order, are the relay's, with its table and its server as before.
  pub handle_thread-Refines :
      (rs : List Round) (s : Loop)
      → IsClient ct server_addr s
      → AllFit rs
      → Refines (handle_thread rs s) (relay ct server_addr rs)
  unfolding handle_thread
  handle_thread-Refines [] s c fit = (c, refl)
  handle_thread-Refines (r ∷ rs) s c ((fits, fits'), fit) =
      Refining.then_round-Refines (IsClient ct server_addr) packets_of packets_of-append refl
        (round r s) (relay_selected ct server_addr r r.selected) _ (relay ct server_addr rs)
        (round-Yields r s c fits fits') (λ t c'. handle_thread-Refines rs t c' fit)
