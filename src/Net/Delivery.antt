-- ===== src/Net/Delivery.antt =====
-- How a packet of a user gets through the net, and another one back.
use s_vpn.Common.{
  ℕ, ◌≤◌, ◌≡◌, refl, sym, ◌∙◌, ap, arith, List, [], ◌∷◌, ◌++◌, map, length, byte_at, inl, true,
  some,
}
use s_vpn.Common.Int.{ℤ, pos, ◌+ℤ◌, ltb_ℤ, is_zero}
use mathlib.Core.List.{Memᴰ}
use mathlib.Core.List.Memᴰ
use mathlib.Core.Path.{subst}
use s_vpn.Crypt.Table.{IsCodeTable}
use s_vpn.Server.Status.{elapsed}
use s_vpn.Server.Loop as Server
use s_vpn.Server.Refines as ServerView
use s_vpn.Server.Accept.{accepted_effects}
use s_vpn.Client.Loop as Client
use s_vpn.Client.Refines as ClientView
use s_vpn.Traffic.Datagram.{wire}
use s_vpn.Traffic.Uplink.{IsPacketOf, HasRoom, drop_message, client-sends, server-receives}
use s_vpn.Traffic.Downlink.{IsPacketFor, server-sends, after_send-reports, client-receives}
use s_vpn.Net.{
  World, Reach, here, later, server_moves, client_moves, after_server, after_client, writes_of,
}
use s_vpn.Net.Sound.{Plan, IsPeer}
use s_vpn.Net.Invariant.{IsIntact}
use s_vpn.Net.Rounds.{
  one_more, can_report, packets_of-accepted, sending, receiving, forwarding, taking, sending-Ends,
  receiving-Ends, forwarding-Ends, taking-Ends,
}

module _ (plan : Plan) (w : World) (intact : IsIntact plan w) (uid : ℕ) (node : Server.ClientNode)
    (known : Server.client_at w.server.server uid ≡ some node) where
  abbrev peer : IsPeer plan uid node
  peer = intact.peers uid node known

  abbrev client : ClientView.IsClient (plan.table uid) plan.server_addr (w.clients uid)
  client = intact.clients uid

  client_room :
      (p : List ℕ)
      → length p ≤ 4096
      → HasRoom (length p) (w.clients uid).tmp_buffer (w.clients uid).buffer
  client_room p fits = record {
    in_tmp = rw (client.tmp_size) fits;
    in_buffer = rw (client.buffer_size) fits;
  }

  server_room :
      (p : List ℕ) → length p ≤ 4096 → HasRoom (length p) w.server.tmp_buffer w.server.buffer
  server_room p fits = record {
    in_tmp = rw (intact.arrays.tmp_size) fits;
    in_buffer = rw (intact.arrays.buffer_size) fits;
  }

  -- The time of the next round.
  abbrev now : ℤ
  now = w.server.globals.stat.ts_last +ℤ pos 1

  -- The client sends the packet, and the server receives it and puts it on its tunnel.
  pub goes_up :
      (p : List ℕ)
      → IsPacketOf w.server.server.local_addr uid p
      → 20 ≤ length p
      → (u : World) × Reach plan.address plan.server_addr w u
        × Memᴰ p u.server_writes
        × (Server.client_at u.server.server uid ≡ some (record node { addr = plan.address uid }))
  goes_up p packet header =
      let (c', sends) = client-sends (sending p) (w.clients uid) p packet.fits in
      let s = Server.update_time now w.server in
      let (g, os, reported) =
        can_report (Server.count_send (length p) s.globals)
          (one_more w.server.globals.stat.ts_last) in
      let d =
        wire (w.clients uid).client.table p (w.clients uid).tmp_buffer (w.clients uid).buffer in
      let (t, e, moved) =
        server-receives (w.clients uid).client.table
          (subst IsCodeTable (sym client.table) peer.user.good) uid
          (ap (λ t. byte_at t.encode 69) client.table ∙ peer.user.identity)
          (receiving now d (plan.address uid)) s node p (plan.address uid)
          (w.clients uid).tmp_buffer (w.clients uid).buffer g os (peer.table ∙ sym client.table)
          known packet (client_room p packet.fits) (server_room p packet.fits) reported in
      let es = Client.send_to d (w.clients uid).client.server_addr ∷ drop_message (sending p) in
      let fs = accepted_effects (record s { addr = plan.address uid }) uid node os p in
      let middle = after_client plan.address plan.server_addr w uid (sending p) c' es in
      let r = receiving now d (plan.address uid) in
      (
        after_server plan.address plan.server_addr middle r t fs,
        later
            (later here (
              client_moves uid node (sending p) c' es known tt
                (
                  record { bytes = packet.bytes; header = header; fits = packet.fits },
                  packet.version,
                )
                (inl (sending-Ends p (w.clients uid) c' es sends)) refl))
            (server_moves r t fs
              (Memᴰ.head (
                ap (λ to. record { bytes = d; from = plan.address uid; to = to })
                  (sym client.server)))
              tt (inl (receiving-Ends now d (plan.address uid) w.server t fs e)) refl),
        subst (λ ps. Memᴰ p (writes_of ps ++ w.server_writes))
            (sym (packets_of-accepted (record s { addr = plan.address uid }) uid node os p))
            (Memᴰ.head refl),
        moved.moved,
      )

  is_sent : (n : ℕ) → 20 ≤ n → ltb_ℤ (pos 0) (pos n) ≡ true
  is_sent n h = ground arith

  -- The server sends a packet to the user that it last heard from there, and the client receives it.
  pub goes_down :
      (q : List ℕ)
      → node.addr ≡ plan.address uid
      → IsPacketFor uid q
      → (u : World) × Reach plan.address plan.server_addr w u
        × Memᴰ (uid, q) u.client_writes
        × ((p : List ℕ) → Memᴰ p w.server_writes → Memᴰ p u.server_writes)
  goes_down q heard packet =
      let s = Server.update_time now w.server in
      let r = forwarding now q in
      let (t, e, same_server, same_globals) =
        server-sends r s node uid q known packet (server_room q packet.fits) in
      let (g, os, reported) = can_report (Server.count_recv (pos (length q)) t.globals) (
        ap (λ g. is_zero (elapsed g.stat)) same_globals ∙ one_more w.server.globals.stat.ts_last) in
      let d = wire node.table q w.server.tmp_buffer w.server.buffer in
      let (c', e', same) =
        client-receives node.table (subst IsCodeTable (sym peer.table) peer.user.good)
          (w.clients uid) uid q w.server.tmp_buffer w.server.buffer (client.table ∙ sym peer.table)
          packet (server_room q packet.fits) (client_room q packet.fits) in
      let fs = Server.send_to d node.addr ∷ map Server.show os in
      let t' = record t { globals = g } in
      let middle = after_server plan.address plan.server_addr w r t' fs in
      let es = Client.write_tun q ∷ [] in
      (
        after_client plan.address plan.server_addr middle uid (taking d) c' es,
        later
            (later here (
              server_moves r t' fs tt
                (record { bytes = packet.bytes; header = packet.header; fits = packet.fits })
                (inl (
                  forwarding-Ends now q w.server t' fs (
                    e
                    ∙ after_send-reports r t uid (Server.send_to d node.addr) g os
                        (is_sent (length q) packet.header) reported)))
                refl))
            (client_moves uid node (taking d) c' es
              (ap (λ srv. Server.client_at srv uid) same_server ∙ known)
              (
                plan.server_addr,
                Memᴰ.head
                    (ap (λ to. record { bytes = d; from = plan.server_addr; to = to }) (sym heard)),
              )
              tt (inl (taking-Ends d (w.clients uid) c' es e')) refl),
        Memᴰ.head refl,
        λ p m. Memᴰ.append_right (writes_of (ServerView.packets_of fs)) m,
      )
