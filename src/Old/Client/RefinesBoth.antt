-- ===== src/Old/Client/RefinesBoth.antt =====
-- The parts of the Linux and of the OS X client do what the relay's do.
use s_vpn.Common.{
  ℕ, ◌≤◌, ◌<◌, ◌≡◌, refl, sym, ◌∙◌, ap, arith, List, [], ◌∷◌, ◌++◌, length, drop, ltb, true, false,
  dec_lt, Option, none, some,
}
use s_vpn.Common.Control.{go_on}
use s_vpn.Crypt.Codes.{encode_all, decode_all}
use s_vpn.Md5.Blocks.{length-copy}
use s_vpn.Traffic.Packet.{to_tun, to_net}
use s_vpn.Traffic.Turn.{Turn}
use s_vpn.Traffic.Refining.{Follows, Refines}
use s_vpn.Old.Client.{SvpnClient, Loop, Round, Effect, Outcome, count_send, count_recv}
use s_vpn.Old.Client.Relay.{relay_out, relay_in, relay}
use s_vpn.Old.Client.Whole.{HasBuffers, Keeps, send_packet-Keeps, write_packet-Keeps}
use s_vpn.Old.Client.Linux as Linux
use s_vpn.Old.Client.Osx as Osx
use s_vpn.Old.Client.Refines.{packets_of, IsThread, FitsOut, FitsIn, AllFit, AreParts-Refines}
use s_vpn.Old.Client.OsxWhole.{tun_part-Keeps, sock_part-Keeps}
use mathlib.Core.Path.{subst}

module _ (client : SvpnClient) where
  kept-IsThread : (s t : Loop) → IsThread client s → Keeps s t → IsThread client t
  kept-IsThread s t c kept = record { room = kept.room; same = kept.client ∙ c.same }

  -- A part that keeps the thread and has just the turn's packets.
  goes_on-Follows :
      (s t : Loop) (o : Outcome) (e : Effect) (turn : Turn)
      → IsThread client s
      → Keeps s t
      → o ≡ go_on t (e ∷ [])
      → turn.drops ≡ false
      → packets_of (e ∷ []) ≡ turn.packets
      → Follows (IsThread client) packets_of o turn
  goes_on-Follows s t o e turn c kept ends goes packets =
      subst (λ o. Follows (IsThread client) packets_of o turn) (sym ends)
        (goes, kept-IsThread s t c kept, packets)

  same_buffers : (s : Loop) → IsThread client s → HasBuffers (count_send s)
  same_buffers s c = record { tmp_size = c.room.tmp_size; size = c.room.size }

  same_buffers' : (s : Loop) → IsThread client s → HasBuffers (count_recv s)
  same_buffers' s c = record { tmp_size = c.room.tmp_size; size = c.room.size }

  below : (n m : ℕ) → n < m → ltb n m ≡ true
  below n m h = ground arith

  not_below : (n m : ℕ) → m ≤ n → ltb n m ≡ false
  not_below n m h = ground arith

  linux-out :
      (s : Loop) (read : Option (List ℕ))
      → IsThread client s
      → FitsOut read
      → Follows
          (IsThread client)
          packets_of
          (Linux.tun_part s read)
          (relay_out [] client.table client.server_addr read)
  unfolding Linux.tun_part
  linux-out s none c fits = (refl, record { room = same_buffers s c; same = c.same }, refl)
  linux-out s (some p) c fits =
      let (t, e, kept) = send_packet-Keeps (count_send s) p (same_buffers s c) fits in
      rw (not_below (length p) 0 (omega arith)) (
        goes_on-Follows s t (Linux.tun_part s (some p)) _ _ c
          (record { room = kept.room; client = kept.client }) e refl
          (ap (λ c. to_net (encode_all c.table p) c.server_addr ∷ []) c.same))

  linux-back :
      (s : Loop) (received : Option (List ℕ))
      → IsThread client s
      → FitsIn [] received
      → Follows
          (IsThread client)
          packets_of
          (Linux.sock_part s received)
          (relay_in [] client.table client.server_addr received)
  unfolding Linux.sock_part
  linux-back s none c fits = (refl, record { room = same_buffers' s c; same = c.same }, refl)
  linux-back s (some d) c fits =
      let (t, e, kept) = write_packet-Keeps (count_recv s) d (same_buffers' s c) (omega arith) in
      goes_on-Follows s t (Linux.sock_part s (some d)) _ _ c
        (record { room = kept.room; client = kept.client }) e refl
        (ap (λ c. to_tun (decode_all c.table d) ∷ []) c.same)

  osx-out :
      (s : Loop) (read : Option (List ℕ))
      → IsThread client s
      → FitsOut read
      → Follows
          (IsThread client)
          packets_of
          (Osx.tun_part s read)
          (relay_out Osx.header client.table client.server_addr read)
  unfolding Osx.tun_part
  osx-out s none c fits = (refl, record { room = same_buffers s c; same = c.same }, refl)
  osx-out s (some p) c fits = elim (dec_lt (length p) 4) [
    | yes short ↦ rw (below (length p) 4 short) (
      refl,
      record {
        room = record {
          tmp_size = length-copy (length p) s.tmp_buffer 0 p 0 ∙ c.room.tmp_size;
          size = c.room.size;
        };
        same = c.same;
      },
      refl,
    )
    | no long ↦
        let (t, e, kept) = tun_part-Keeps s p c.room (omega arith) fits in
        goes_on-Follows s t (Osx.tun_part s (some p)) _ _ c kept e
          (rw (not_below (length p) 4 (omega arith)) refl)
          (rw (not_below (length p) 4 (omega arith))
            (ap (λ c. to_net (encode_all c.table (drop 4 p)) c.server_addr ∷ []) c.same))
  ]

  osx-back :
      (s : Loop) (received : Option (List ℕ))
      → IsThread client s
      → FitsIn Osx.header received
      → Follows
          (IsThread client)
          packets_of
          (Osx.sock_part s received)
          (relay_in Osx.header client.table client.server_addr received)
  unfolding Osx.sock_part
  osx-back s none c fits = (refl, record { room = same_buffers' s c; same = c.same }, refl)
  osx-back s (some d) c fits =
      let (t, e, kept) = sock_part-Keeps s d c.room fits in
      goes_on-Follows s t (Osx.sock_part s (some d)) _ _ c kept e refl
        (ap (λ c. to_tun (Osx.header ++ decode_all c.table d) ∷ []) c.same)

-- The thread of `svpn_handle_thread`, with arrays of 4096 bytes, on Linux with datagrams of at most 4096
-- bytes and on OS X of at most 4092, and with at most 4096 bytes from the tunnel at once: whatever the
-- rounds bring, it returns just where the relay ends, at a round whose `select` was interrupted, never
-- writes past its arrays, and else sends and writes just the relay's packets, in their order, with the
-- struct as before. The relay has no buffers; on OS X it takes four bytes off each packet of the tunnel,
-- leaves out what is shorter, and puts 0, 0, 0, 2 before each packet that goes there.
pub handle_threads-Refines :
    (linux osx : Loop) (rs rs' : List Round)
    → HasBuffers linux
    → HasBuffers osx
    → AllFit [] rs
    → AllFit Osx.header rs'
    → Refines
        (IsThread linux.client)
        packets_of
        (Linux.handle_thread rs linux)
        (relay [] linux.client.table linux.client.server_addr rs)
      × Refines
          (IsThread osx.client)
          packets_of
          (Osx.handle_thread rs' osx)
          (relay Osx.header osx.client.table osx.client.server_addr rs')
handle_threads-Refines linux osx rs rs' room room' fit fit' = (
  AreParts-Refines [] linux.client Linux.tun_part Linux.sock_part
      (record { out = linux-out linux.client; back = linux-back linux.client }) rs linux
      (record { room = room; same = refl }) fit,
  AreParts-Refines Osx.header osx.client Osx.tun_part Osx.sock_part
      (record { out = osx-out osx.client; back = osx-back osx.client }) rs' osx
      (record { room = room'; same = refl }) fit',
)
