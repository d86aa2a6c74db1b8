-- ===== src/Tests/RelayRuns.antt =====
-- The server's loop against the relay, at two rounds.
use s_vpn.Common.{
  ℕ, arith, [], ◌∷◌, replicate, length-replicate, true, false, inl, inr, Bool, some, ◌≢◌, refl,
}
use s_vpn.Common.Int.{pos}
use s_vpn.Server.Loop.{Loop, Selected, interrupted, failed, ready, Round, serve, enter_loop}
use s_vpn.Server.Relay.{relay}
use s_vpn.Server.Refines.{peers_of, HasArrays}
use s_vpn.Common.Control.{fault}
use s_vpn.Server.NoFault.{Ticks, serve-ne-fault}
use s_vpn.Server.RefinesLoop.{IsInterrupted}
use s_vpn.Server.Relays.{ComesTo, serve-Relays}
use mathlib.Core.Path.{subst}
use s_vpn.Tests.ServerRuns.{start as small}

abbrev pub start : Loop
start = record small { buffer = replicate 4096 0; tmp_buffer = replicate 4096 0 }

pub start-HasArrays : HasArrays start
start-HasArrays = record {
  buffer_size = length-replicate {A = ℕ} 4096 0;
  tmp_size = length-replicate {A = ℕ} 4096 0;
}

-- A datagram from an unknown user, then a packet for user 6.
abbrev pub datagram_round : Round
datagram_round = record {
  selected = ready true true;
  now = pos 1000002;
  received = some (9 ∷ replicate 19 0, 66 ∷ 66 ∷ []);
  tun_read = some (replicate 20 6);
  sent = pos 20;
  opens = true;
}

ready-ne-interrupted : (sock tun : Bool) → ready sock tun ≢ interrupted
ready-ne-interrupted sock tun e = subst IsReady e tt
  where
    IsReady : Selected → Type 0
    IsReady interrupted = ⊥
    IsReady failed = Unit
    IsReady (ready a b) = Unit

abbrev later_round : Round
later_round = record datagram_round { selected = ready false true; now = pos 3000009 }

ticking : Ticks 7 7 (datagram_round ∷ later_round ∷ [])
ticking = (
  1000002,
  refl,
  omega arith,
  omega arith,
  refl,
  refl,
  (3000009, refl, omega arith, omega arith, refl, refl, tt),
)

steady : ¬ IsInterrupted (datagram_round ∷ later_round ∷ [])
steady (inl e) = ready-ne-interrupted true true e
steady (inr (inl e)) = ready-ne-interrupted false true e
steady (inr (inr x)) = elim x [ ]

serve-Relays_example :
    ComesTo
      (serve (datagram_round ∷ later_round ∷ []) (enter_loop (pos 7) start))
      (relay start.server.local_addr (peers_of start) (datagram_round ∷ later_round ∷ []))
serve-Relays_example =
    serve-Relays (datagram_round ∷ later_round ∷ []) 7 start start-HasArrays
      (
        ((omega arith, omega arith), (omega arith, omega arith)),
        (((omega arith, omega arith), (omega arith, omega arith)), tt),
      )
      steady ticking

serve-ne-fault_example :
    serve (datagram_round ∷ later_round ∷ []) (enter_loop (pos 7) start) ≢ fault
serve-ne-fault_example = serve-ne-fault (datagram_round ∷ later_round ∷ []) 7 start ticking
