-- ===== src/Old/Client/Refines.antt =====
-- The select loops of the older clients do what their relay does.
use s_vpn.Common.{
  ℕ, ◌+◌, ◌≤◌, ◌≡◌, refl, ap, List, [], ◌∷◌, ◌++◌, length, true, false, Option, none, some,
}
use s_vpn.Common.Control.{go_on}
use s_vpn.Traffic.Packet.{Packet, to_tun, to_net}
use s_vpn.Traffic.Turn.{pass_it}
use s_vpn.Traffic.Refining.{Follows, Yields, Refines, both-Yields, then_round-Refines}
use s_vpn.Old.Client.{
  buffer_len, SvpnClient, Loop, Selected, interrupted, failed, ready, Round, Effect, write_tun,
  send_to, Outcome, dispatch, handle_thread,
}
use s_vpn.Old.Client.Relay.{relay_out, relay_in, relay_selected, relay}
use s_vpn.Old.Client.Whole.{HasBuffers}

-- The packets among the effects.
abbrev pub packets_of : List Effect → List Packet
packets_of [] = []
packets_of (write_tun p ∷ es) = to_tun p ∷ packets_of es
packets_of (send_to d addr ∷ es) = to_net d addr ∷ packets_of es

packets_of-append : (es fs : List Effect) → packets_of (es ++ fs) ≡ packets_of es ++ packets_of fs
packets_of-append [] fs = refl
packets_of-append (write_tun p ∷ es) fs = ap (λ ps. to_tun p ∷ ps) (packets_of-append es fs)
packets_of-append (send_to d addr ∷ es) fs = ap (λ ps. to_net d addr ∷ ps) (packets_of-append es fs)

-- The thread of a client, with arrays of the source's size.
pub record IsThread (client : SvpnClient) (s : Loop) : Type 0 where
  pub room : HasBuffers s
  pub same : s.client ≡ client

-- What is read fits the arrays, on the way in with the bytes that stand before it.
abbrev pub FitsOut : Option (List ℕ) → Type 0
FitsOut none = Unit
FitsOut (some p) = length p ≤ buffer_len

abbrev pub FitsIn : List ℕ → Option (List ℕ) → Type 0
FitsIn header none = Unit
FitsIn header (some d) = length d + length header ≤ buffer_len

abbrev pub AllFit : List ℕ → List Round → Type 0
AllFit header [] = Unit
AllFit header (r ∷ rs) = (FitsOut r.tun_read × FitsIn header r.received) × AllFit header rs

-- The two parts of a platform do what the parts of the relay do.
pub record AreParts (header : List ℕ) (client : SvpnClient)
    (tun_part sock_part : Loop → Option (List ℕ) → Outcome) : Type 0 where
  pub out :
      (s : Loop) (read : Option (List ℕ))
      → IsThread client s
      → FitsOut read
      → Follows
          (IsThread client)
          packets_of
          (tun_part s read)
          (relay_out header client.table client.server_addr read)
  pub back :
      (s : Loop) (received : Option (List ℕ))
      → IsThread client s
      → FitsIn header received
      → Follows
          (IsThread client)
          packets_of
          (sock_part s received)
          (relay_in header client.table client.server_addr received)

module _ (header : List ℕ) (client : SvpnClient)
    (tun_part sock_part : Loop → Option (List ℕ) → Outcome)
    (parts : AreParts header client tun_part sock_part) where
  dispatch-Yields :
      (r : Round) (s : Loop) (sel : Selected)
      → IsThread client s
      → FitsOut r.tun_read
      → FitsIn header r.received
      → Yields
          (IsThread client)
          packets_of
          (dispatch tun_part sock_part r s sel)
          (relay_selected header client.table client.server_addr r sel)
  unfolding dispatch
  dispatch-Yields r s interrupted c fits fits' = tt
  dispatch-Yields r s failed c fits fits' = (c, refl)
  dispatch-Yields r s (ready true sock) c fits fits' =
      both-Yields (IsThread client) packets_of packets_of-append refl sock (tun_part s r.tun_read)
        (λ t. sock_part t r.received) _ _ (parts.out s r.tun_read c fits)
        (λ t c'. parts.back t r.received c' fits')
  dispatch-Yields r s (ready false sock) c fits fits' =
      both-Yields (IsThread client) packets_of packets_of-append refl sock (go_on s [])
        (λ t. sock_part t r.received) (pass_it []) _ (refl, c, refl)
        (λ t c'. parts.back t r.received c' fits')

  pub AreParts-Refines :
      (rs : List Round) (s : Loop)
      → IsThread client s
      → AllFit header rs
      → Refines
          (IsThread client)
          packets_of
          (handle_thread tun_part sock_part rs s)
          (relay header client.table client.server_addr rs)
  unfolding handle_thread
  AreParts-Refines [] s c fit = (c, refl)
  AreParts-Refines (r ∷ rs) s c ((fits, fits'), fit) =
      then_round-Refines (IsThread client) packets_of packets_of-append refl
        (dispatch tun_part sock_part r s r.selected)
        (relay_selected header client.table client.server_addr r r.selected) _
        (relay header client.table client.server_addr rs)
        (dispatch-Yields r s r.selected c fits fits') (λ t c'. AreParts-Refines rs t c' fit)
