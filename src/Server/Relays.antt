-- ===== src/Server/Relays.antt =====
-- The select loop from its start, against the relay, without the ways in which it ends early.
use s_vpn.Common.{ℕ, ◌≡◌, ◌≢◌, refl, List}
use s_vpn.Common.Int.{pos}
use s_vpn.Common.Control.{go_on, skip, stop, fault}
use s_vpn.Server.Loop.{Loop, Round, Outcome, serve, enter_loop}
use s_vpn.Server.Relay.{Packet, Peers, relay}
use s_vpn.Server.Refines.{peers_of, packets_of, HasArrays}
use s_vpn.Server.RefinesLoop.{AllFit, IsInterrupted, Refines, serve-Refines}
use s_vpn.Server.NoFault.{Ticks, serve-ne-fault}

-- The loop has not ended, with these users and these packets sent and written.
abbrev pub ComesTo : Outcome → Peers × List Packet → Type 0
ComesTo (go_on t es) result = (peers_of t ≡ result.0) × (packets_of es ≡ result.1)
ComesTo (skip t es) result = (peers_of t ≡ result.0) × (packets_of es ≡ result.1)
ComesTo stop result = ⊥
ComesTo fault result = ⊥

Refines-ComesTo :
    (rs : List Round) (o : Outcome) (result : Peers × List Packet)
    → Refines rs o result
    → ¬ IsInterrupted rs
    → o ≢ fault
    → ComesTo o result
Refines-ComesTo rs (go_on t es) result refines steady sound = refines
Refines-ComesTo rs (skip t es) result refines steady sound = refines
Refines-ComesTo rs stop result refines steady sound = steady refines
Refines-ComesTo rs fault result refines steady sound = sound refl

-- Entered at the time `now` with arrays of 4096 bytes, over rounds in which `select` is not
-- interrupted, datagrams have 16 to 4096 bytes and packets 20 to 4096, the clock grows and stays
-- within 2^31 microseconds from `now`, the log can be opened, and `sendto` sends no more than 4096
-- bytes: the loop is still running after them, with the relay's users, and has sent and written the
-- relay's packets in the relay's order, and no others.
pub serve-Relays :
    (rs : List Round) (now : ℕ) (s : Loop)
    → HasArrays s
    → AllFit rs
    → ¬ IsInterrupted rs
    → Ticks now now rs
    → ComesTo (serve rs (enter_loop (pos now) s)) (relay s.server.local_addr (peers_of s) rs)
unfolding enter_loop
serve-Relays rs now s arrays fit steady ticks =
    Refines-ComesTo rs (serve rs (enter_loop (pos now) s)) _
      (serve-Refines rs (enter_loop (pos now) s)
        (record { buffer_size = arrays.buffer_size; tmp_size = arrays.tmp_size }) fit)
      steady (serve-ne-fault rs now s ticks)
