-- ===== src/Tests/ThreadRuns.antt =====
-- Packets through the threads of the older clients.
use s_vpn.Common.{ℕ, ◌≡◌, ◌≤◌, refl, arith, List, [], ◌∷◌, map, length, IsBytes, are_bytes-IsBytes}
use mathlib.Core.List.{Memᴰ}
use mathlib.Core.Path.{subst, sym}
use s_vpn.Common.Control.{go_on}
use s_vpn.Crypt.Codes.{encode_all}
use s_vpn.Old.Client as Client
use s_vpn.Old.Client.Linux.{failed, interrupted, arrived}
use s_vpn.Old.Client.Bodies.{Turn, off, on, taken, send_thread, recv_thread}
use s_vpn.Old.Client.BodiesLaws.{threads-Deliver}
use s_vpn.Tests.OldRuns.{loop, loop-HasBuffers, packet, table_good}
use s_vpn.Old.Client.Linux as Linux
use s_vpn.Old.Client.Osx as Osx
use s_vpn.Old.Client.Relay.{relay}
use s_vpn.Old.Client.Refines.{packets_of, IsThread}
use s_vpn.Old.Client.RefinesBoth.{handle_threads-Refines}
use s_vpn.Traffic.Refining.{Refines}
use s_vpn.Common.{some, true, false}

abbrev short : List ℕ
short = 1 ∷ 2 ∷ []

-- The flag is off after two packets.
abbrev sending : List Turn
sending = on (arrived packet) ∷ on failed ∷ on (arrived short) ∷ off ∷ on (arrived []) ∷ []

-- The second packet comes first, and the first one twice.
abbrev come : List (List ℕ)
come = short ∷ packet ∷ packet ∷ []

abbrev receiving : List Turn
receiving =
    on failed
    ∷ on (arrived (encode_all loop.client.table short))
    ∷ on (arrived (encode_all loop.client.table packet))
    ∷ on (arrived (encode_all loop.client.table packet))
    ∷ on interrupted
    ∷ on (arrived short)
    ∷ []

packets : (p : List ℕ) → Memᴰ p (taken sending) → IsBytes p × (length p ≤ 4096)
packets p (Memᴰ.head e) =
    subst (λ p. IsBytes p × (length p ≤ 4096)) (sym e) (are_bytes-IsBytes packet refl, omega arith)
packets p (Memᴰ.tail (Memᴰ.head e)) =
    subst (λ p. IsBytes p × (length p ≤ 4096)) (sym e) (are_bytes-IsBytes short refl, omega arith)
packets p (Memᴰ.tail (Memᴰ.tail m)) = elim m [ ]

among : (q : List ℕ) → Memᴰ q come → Memᴰ q (taken sending)
among q (Memᴰ.head e) = Memᴰ.tail (Memᴰ.head e)
among q (Memᴰ.tail (Memᴰ.head e)) = Memᴰ.head e
among q (Memᴰ.tail (Memᴰ.tail (Memᴰ.head e))) = Memᴰ.head e
among q (Memᴰ.tail (Memᴰ.tail (Memᴰ.tail m))) = elim m [ ]

threads-Deliver_example :
    ((s' : Client.Loop) × (send_thread sending loop
        ≡ go_on s' (
            map
              (λ p. Client.send_to (encode_all loop.client.table p) (9 ∷ 9 ∷ []))
              (packet ∷ short ∷ [])))
      × (s'.client ≡ loop.client))
    × ((r' : Client.Loop) × (recv_thread receiving loop ≡ go_on r' (map Client.write_tun come))
        × (r'.client ≡ loop.client))
threads-Deliver_example =
    threads-Deliver loop loop sending receiving come loop-HasBuffers loop-HasBuffers table_good refl
      packets among refl

abbrev round : Client.Round
round = record {
  selected = Client.ready true true;
  tun_read = some (0 ∷ 0 ∷ 0 ∷ 2 ∷ packet);
  received = some short;
}

-- Three bytes from the tunnel, then a signal.
abbrev rounds : List Client.Round
rounds =
    round
    ∷ record round { selected = Client.ready true false; tun_read = some (1 ∷ 2 ∷ 3 ∷ []) }
    ∷ record round { selected = Client.failed }
    ∷ []

handle_threads-Refines_example :
    Refines
      (IsThread loop.client)
      packets_of
      (Linux.handle_thread rounds loop)
      (relay [] loop.client.table loop.client.server_addr rounds)
    × Refines
        (IsThread loop.client)
        packets_of
        (Osx.handle_thread rounds loop)
        (relay Osx.header loop.client.table loop.client.server_addr rounds)
handle_threads-Refines_example =
    handle_threads-Refines loop loop rounds rounds loop-HasBuffers loop-HasBuffers
      ((omega arith, omega arith), ((omega arith, omega arith), ((omega arith, omega arith), tt)))
      ((omega arith, omega arith), ((omega arith, omega arith), ((omega arith, omega arith), tt)))
