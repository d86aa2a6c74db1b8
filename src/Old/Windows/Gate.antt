-- ===== src/Old/Windows/Gate.antt =====
-- What the thread of the Windows client does, without its buffers: the gate between the tunnel and
-- one peer. It describes `cycle` independently of old-code/old/win32/Wtaet.
use s_vpn.Common.{ℕ, ◌/◌, List, [], ◌∷◌, ◌++◌, byte_at, ◌==◌, if◌then◌else◌, Option, none, some}
use s_vpn.Crypt.{CodeTable}
use s_vpn.Crypt.Codes.{encode_all, decode_all}
use s_vpn.Old.Windows.Comm.{Datagram}
use s_vpn.Old.Windows.Tun.{Started, at_once, pending, failed}
use s_vpn.Old.Windows.Cycle.{Wake, comm_wakes, tun_wakes, other_wake, Effect, sent, written}

-- The peer, a packet that the tunnel gave at once, and the last packets to and from the net.
pub record Gate : Type 0 where
  pub peer : List ℕ
  pub ahead : Option (List ℕ)
  pub last_out : List ℕ
  pub last_in : List ℕ

abbrev pub peer_after : List ℕ → Option Datagram → List ℕ
peer_after peer none = peer
peer_after peer (some d) = d.from

-- A read that fails gives the last packet again.
abbrev pub next_packet : Option (List ℕ) → Option (List ℕ) → List ℕ → List ℕ
next_packet (some p) completed last = p
next_packet none (some p) last = p
next_packet none none last = last

abbrev pub read_ahead : Started → Option (List ℕ)
read_ahead (at_once p) = some p
read_ahead pending = none
read_ahead failed = none

module _ (ct : CodeTable) where
  -- Only IPv4 goes out.
  abbrev pub outgoing : List ℕ → List ℕ → List Effect
  outgoing p peer =
      if byte_at p 0 / 16 == 4
      then sent (record { bytes = encode_all ct p; from = peer }) ∷ []
      else []

  -- A receive that fails leaves the peer, and gives the last packet again.
  abbrev pub incoming : Gate → Option Datagram → Gate
  incoming g none = g
  incoming g (some d) = record g { peer = d.from; last_in = decode_all ct d.bytes }

  abbrev pub gate_in : Gate → Option Datagram → Gate
  gate_in g next = record g { peer = peer_after g.peer next }

  abbrev pub gate_round : Gate → Wake → Gate × List Effect
  gate_round g (comm_wakes completed next) =
      (gate_in (incoming g completed) next.at_once, written (incoming g completed).last_in ∷ [])
  gate_round g (tun_wakes completed enbuf next) =
      let p = next_packet g.ahead completed g.last_out in
      (record g { ahead = read_ahead next; last_out = p }, outgoing p g.peer)
  gate_round g other_wake = (g, [])

  unfoldable pub gate : Gate → List Wake → Gate × List Effect
  gate g [] = (g, [])
  gate g (w ∷ ws) = let (g', es) = gate_round g w in let (g'', fs) = gate g' ws in (g'', es ++ fs)
