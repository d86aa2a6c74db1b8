-- ===== src/Traffic/Turn.antt =====
-- A round of an abstract account of a client's loop, which has no buffers and no counts.
use s_vpn.Common.{List, [], ◌++◌, if◌then◌else◌, Bool, true, false, Option, none, some}
use s_vpn.Traffic.Packet.{Packet}

-- The packets, and whether the rest of the round is left out.
pub record Turn : Type 0 where
  pub packets : List Packet
  pub drops : Bool

abbrev pub drop_it : Turn
drop_it = record { packets = []; drops = true }

abbrev pub pass_it : List Packet → Turn
pass_it packets = record { packets = packets; drops = false }

abbrev pub packets_before : List Packet → Option (List Packet) → Option (List Packet)
packets_before ps none = none
packets_before ps (some qs) = some (ps ++ qs)

abbrev pub then_relay : Option Turn → Option (List Packet) → Option (List Packet)
then_relay none rest = none
then_relay (some turn) rest = packets_before turn.packets rest

-- The second part of a round, if it is asked for and the first one did not end the round.
abbrev pub both : Bool → Turn → Turn → Turn
both asked first second =
    if first.drops
    then first
    else (if asked then record second { packets = first.packets ++ second.packets } else first)
