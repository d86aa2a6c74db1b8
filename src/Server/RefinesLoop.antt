-- ===== src/Server/RefinesLoop.antt =====
-- Whole rounds of the select loop, and any number of them, against the relay.
use s_vpn.Common.{
  ◌≡◌, ◌⊎◌, refl, ◌∙◌, ap₂, List, [], ◌∷◌, ◌++◌, if◌then◌else◌, inl, inr, Bool, true, false,
}
use mathlib.Core.List.{append-nil}
use s_vpn.Common.Control.{go_on, skip, stop, fault, emit, ◌>>=◌, then_round, Ensures}
use s_vpn.Server.Loop.{
  Loop, Selected, interrupted, failed, ready, Round, Effect, Outcome, sock_part, tun_part,
  update_time, dispatch, round, serve,
}
use s_vpn.Server.Keeps.{Keeps}
use s_vpn.Server.Invariant.{sock_part-Keeps, dispatch-Keeps, timed}
use s_vpn.Server.Relay.{Packet, Peers, Turn, pass_it, then_out, relay_selected, relay_round, relay}
use s_vpn.Server.Refines.{peers_of, packets_of, packets_of-append, Follows, Yields, HasArrays}
use s_vpn.Server.RefinesParts.{FitsIn, FitsOut, sock_part-Follows, tun_part-Yields}

-- Each datagram and each packet is long enough for the header's fields that the source reads.
abbrev pub AllFit : List Round → Type 0
AllFit [] = Unit
AllFit (r ∷ rs) = (FitsIn r.received × FitsOut r.tun_read) × AllFit rs

-- In some round `select` was interrupted.
abbrev pub IsInterrupted : List Round → Type 0
IsInterrupted [] = ⊥
IsInterrupted (r ∷ rs) = (r.selected ≡ interrupted) ⊎ IsInterrupted rs

-- What the rounds come to, if the report on the traffic does not fault: the relay's users and
-- packets, or a `return`, and then `select` was interrupted.
abbrev pub Refines : List Round → Outcome → Peers × List Packet → Type 0
Refines rs (go_on t es) result = (peers_of t ≡ result.0) × (packets_of es ≡ result.1)
Refines rs (skip t es) result = (peers_of t ≡ result.0) × (packets_of es ≡ result.1)
Refines rs stop result = IsInterrupted rs
Refines rs fault result = Unit

-- The same for one round.
abbrev pub RoundYields : Round → Outcome → Turn → Type 0
RoundYields r (go_on t es) turn = (peers_of t ≡ turn.peers) × (packets_of es ≡ turn.packets)
RoundYields r (skip t es) turn = (peers_of t ≡ turn.peers) × (packets_of es ≡ turn.packets)
RoundYields r stop turn = r.selected ≡ interrupted
RoundYields r fault turn = Unit

pub Keeps-HasArrays : {s t : Loop} → Keeps s t → HasArrays s → HasArrays t
Keeps-HasArrays k a = record {
  buffer_size = k.same_buffer ∙ a.buffer_size;
  tmp_size = k.same_tmp ∙ a.tmp_size;
}

-- The tunnel's part, if `select` has the tunnel ready.
abbrev second_part : Round → Bool → Loop → Outcome
second_part r tun t = if tun then tun_part r t r.tun_read else go_on t []

emit-Yields :
    (r : Round) (es : List Effect) (o : Outcome) (peers : Peers) (packets before : List Packet)
    (drops : Bool)
    → packets_of es ≡ before
    → Yields o peers packets
    → RoundYields r
        (emit es o)
        (record { peers = peers; packets = before ++ packets; drops = drops })
emit-Yields r es (go_on t fs) peers packets before drops e y =
    (y.0, packets_of-append es fs ∙ ap₂ ◌++◌ e y.1)
emit-Yields r es (skip t fs) peers packets before drops e y =
    (y.0, packets_of-append es fs ∙ ap₂ ◌++◌ e y.1)
emit-Yields r es stop peers packets before drops e y = elim y [ ]
emit-Yields r es fault peers packets before drops e y = tt

both_parts :
    (r : Round) (s : Loop) (tun : Bool) (o : Outcome) (turn : Turn)
    → HasArrays s
    → FitsOut r.tun_read
    → Ensures (Keeps s) o
    → Follows o turn
    → RoundYields r (o >>= second_part r tun) (then_out tun r turn)
both_parts r s true (go_on t es) turn arrays fits kept (goes, peers, packets) =
    rw (goes, ← peers)
      (emit-Yields r es (tun_part r t r.tun_read) _ _ turn.packets _ packets
        (tun_part-Yields r t (Keeps-HasArrays kept arrays) r.tun_read fits))
both_parts r s false (go_on t es) turn arrays fits kept (goes, peers, packets) =
    rw goes (peers, packets_of-append es [] ∙ append-nil (packets_of es) ∙ packets)
both_parts r s tun (skip t es) turn arrays fits kept (drops, peers, packets) =
    rw drops (peers, packets)
both_parts r s tun stop turn arrays fits kept follows = elim follows [ ]
both_parts r s tun fault turn arrays fits kept follows = tt

pub dispatch-Yields :
    (r : Round) (s : Loop) (sel : Selected)
    → r.selected ≡ sel
    → HasArrays s
    → FitsIn r.received
    → FitsOut r.tun_read
    → RoundYields r (dispatch r s sel) (relay_selected s.server.local_addr (peers_of s) r sel)
unfolding dispatch
dispatch-Yields r s interrupted e arrays fits fits' = e
dispatch-Yields r s failed e arrays fits fits' = (refl, refl)
dispatch-Yields r s (ready true tun) e arrays fits fits' =
    both_parts r s tun (sock_part r (update_time r.now s) r.received) _ arrays fits'
      (sock_part-Keeps r s _ r.received (timed s r.now))
      (sock_part-Follows r (update_time r.now s) r.received (Keeps-HasArrays (timed s r.now) arrays)
        fits)
dispatch-Yields r s (ready false tun) e arrays fits fits' =
    both_parts r s tun (go_on (update_time r.now s) []) (pass_it (peers_of s) []) arrays fits'
      (timed s r.now) (refl, refl, refl)

Refines-emit :
    (r : Round) (rs : List Round) (es : List Effect) (o : Outcome) (peers : Peers)
    (packets before : List Packet)
    → packets_of es ≡ before
    → Refines rs o (peers, packets)
    → Refines (r ∷ rs) (emit es o) (peers, before ++ packets)
Refines-emit r rs es (go_on t fs) peers packets before e y =
    (y.0, packets_of-append es fs ∙ ap₂ ◌++◌ e y.1)
Refines-emit r rs es (skip t fs) peers packets before e y =
    (y.0, packets_of-append es fs ∙ ap₂ ◌++◌ e y.1)
Refines-emit r rs es stop peers packets before e y = inr y
Refines-emit r rs es fault peers packets before e y = tt

next_rounds :
    (r : Round) (rs : List Round) (s : Loop) (o : Outcome) (turn : Turn)
    → HasArrays s
    → Ensures (Keeps s) o
    → RoundYields r o turn
    → ((t : Loop)
        → HasArrays t
        → Refines rs (serve rs t) (relay t.server.local_addr (peers_of t) rs))
    → Refines (r ∷ rs) (then_round o (λ t. serve rs t)) (
        let (peers, packets) = relay s.server.local_addr turn.peers rs in
        (peers, turn.packets ++ packets))
next_rounds r rs s (go_on t es) turn arrays kept (peers, packets) next =
    rw (← kept.same_net, ← peers)
      (Refines-emit r rs es (serve rs t) _ _ turn.packets packets
        (next t (Keeps-HasArrays kept arrays)))
next_rounds r rs s (skip t es) turn arrays kept (peers, packets) next =
    rw (← kept.same_net, ← peers)
      (Refines-emit r rs es (serve rs t) _ _ turn.packets packets
        (next t (Keeps-HasArrays kept arrays)))
next_rounds r rs s stop turn arrays kept yields next = inl yields
next_rounds r rs s fault turn arrays kept yields next = tt

-- Whatever the rounds bring, with arrays of 4096 bytes, datagrams of 16 to 4096 bytes and packets
-- of 20 to 4096 bytes, the loop does what the relay does: if it goes on after the rounds, its users
-- and the packets that it sent and wrote, in their order, are the relay's; if it returns, `select`
-- was interrupted; otherwise it runs into undefined behaviour.
pub serve-Refines :
    (rs : List Round) (s : Loop)
    → HasArrays s
    → AllFit rs
    → Refines rs (serve rs s) (relay s.server.local_addr (peers_of s) rs)
unfolding serve round
serve-Refines [] s arrays fit = (refl, refl)
serve-Refines (r ∷ rs) s arrays fit =
    next_rounds r rs s (round r s) (relay_round s.server.local_addr (peers_of s) r) arrays
      (dispatch-Keeps r s r.selected) (dispatch-Yields r s r.selected refl arrays fit.0.0 fit.0.1)
      (λ t arrays'. serve-Refines rs t arrays' fit.1)
