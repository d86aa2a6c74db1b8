-- ===== src/Traffic/Downlink.antt =====
-- From the server's tunnel to a client's.
use s_vpn.Common.{
  ℕ, ◌/◌, ◌^◌, ◌≤◌, ◌≡◌, refl, sym, ◌∙◌, ap, arith, List, [], ◌∷◌, map, length, byte_at, take,
  IsBytes, ◌==◌, ltb, ◌||◌, true, false, some,
}
use s_vpn.Common.Int.{pos, ◌+ℤ◌, ltb_ℤ, to_int32}
use s_vpn.Server.Loop.{
  buffer_len, ClientNode, Loop, Round, Effect, show, count_recv, send_to, client_at, after_send,
  to_client, tun_part,
}
use s_vpn.Common.Control.{go_on}
use s_vpn.Server.Status.{Globals, Output, output_info}
use s_vpn.Crypt.{CodeTable, encrypt}
use s_vpn.Crypt.Table.{IsCodeTable, build_table-IsCodeTable, build_table-overwrites}
use s_vpn.Md5.{copy}
use s_vpn.Client.Loop as Client
use s_vpn.Traffic.Datagram.{byte_at-fill, wire, opened, length-wire, byte_at-opened, take-opened}
use s_vpn.Traffic.Uplink.{HasRoom, SharesPassword}

-- An IPv4 packet for user `uid` that the loops can carry.
pub record IsPacketFor (uid : ℕ) (p : List ℕ) : Type 0 where
  pub bytes : IsBytes p
  pub header : 20 ≤ length p
  pub fits : length p ≤ buffer_len
  pub version : byte_at p 0 / 16 ≡ 4
  pub destination : byte_at p 19 ≡ uid

sizes : (n : ℕ) → 20 ≤ n → n ≤ buffer_len → (n == 0 || ltb buffer_len n) ≡ false
sizes n h k = ground arith

-- The server sends the packet, encrypted, to the address that it has for the user.
pub server-sends :
    (r : Round) (s : Loop) (node : ClientNode) (uid : ℕ) (p : List ℕ)
    → client_at s.server uid ≡ some node
    → IsPacketFor uid p
    → HasRoom (length p) s.tmp_buffer s.buffer
    → (t : Loop) × (tun_part r s (some p)
        ≡ after_send r t uid (send_to (wire node.table p s.tmp_buffer s.buffer) node.addr))
      × (t.server ≡ s.server)
      × (t.globals ≡ s.globals)
unfolding tun_part to_client
server-sends r s node uid p known packet room = (
  record s {
    tmp_buffer = copy (length p) s.tmp_buffer 0 p 0;
    buffer = encrypt node.table (copy (length p) s.tmp_buffer 0 p 0) s.buffer (length p);
  },
  rw (sizes (length p) packet.header packet.fits, target, known),
  refl,
  refl,
)
  where
    target : byte_at (copy (length p) s.tmp_buffer 0 p 0) 19 ≡ uid
    target = byte_at-fill p s.tmp_buffer 19 room.in_tmp packet.header ∙ packet.destination

-- What follows a `sendto` that succeeds.
pub after_send-reports :
    (r : Round) (s : Loop) (uid : ℕ) (effect : Effect) (g : Globals) (os : List Output)
    → ltb_ℤ (pos 0) r.sent ≡ true
    → output_info r.opens (count_recv r.sent s.globals) ≡ some (g, os)
    → after_send r s uid effect ≡ go_on (record s { globals = g }) (effect ∷ map show os)
unfolding after_send
after_send-reports r s uid effect g os sent reported = rw (sent, reported)

-- A client with the same table puts the packet on its tunnel.
pub client-receives :
    (ct : CodeTable)
    → IsCodeTable ct
    → (c : Client.Loop) (uid : ℕ) (p tmp buffer : List ℕ) → c.client.table ≡ ct
    → IsPacketFor uid p
    → HasRoom (length p) tmp buffer
    → HasRoom (length p) c.tmp_buffer c.buffer
    → (c' : Client.Loop) × (Client.sock_part c (some (wire ct p tmp buffer))
        ≡ go_on c' (Client.write_tun p ∷ []))
      × (c'.client ≡ c.client)
unfolding Client.sock_part
client-receives ct good c uid p tmp buffer table packet room room' = (
  record c {
    tmp_buffer = copy (length d) c.tmp_buffer 0 d 0;
    buffer = opened c.client.table d c.tmp_buffer c.buffer;
    recvc = to_int32 (c.recvc +ℤ pos (length d));
  },
  rw (fits (length d) (rw size packet.fits), is_ipv4, whole),
  refl,
)
  where
    d : List ℕ
    d = wire ct p tmp buffer

    size : length d ≡ length p
    size = length-wire ct p tmp buffer room.in_tmp room.in_buffer

    fits : (n : ℕ) → n ≤ buffer_len → ltb Client.buffer_len n ≡ false
    fits n h = ground arith

    first : byte_at (opened c.client.table d c.tmp_buffer c.buffer) 0 ≡ byte_at p 0
    first = rw table (
        byte_at-opened ct p tmp buffer room.in_tmp room.in_buffer good packet.bytes c.tmp_buffer
          c.buffer room'.in_tmp room'.in_buffer 0 (omega (arith, packet.header)))

    is_ipv4 : (byte_at (opened c.client.table d c.tmp_buffer c.buffer) 0 / 2 ^ 4 == 4) ≡ true
    is_ipv4 = rw (first, packet.version)

    whole : take (length d) (opened c.client.table d c.tmp_buffer c.buffer) ≡ p
    whole = rw table (
        ap (λ n. take n (opened ct d c.tmp_buffer c.buffer)) size
        ∙ take-opened ct p tmp buffer room.in_tmp room.in_buffer good packet.bytes c.tmp_buffer
            c.buffer room'.in_tmp room'.in_buffer)

module _ (md : List ℕ) (uid : ℕ) (c : Client.Loop) (r : Round) (s : Loop) (node : ClientNode)
    (p : List ℕ) (g : Globals) (os : List Output) where
  -- With tables built from one digest of bytes and the number `uid` below 256, the server that reads
  -- from its tunnel a packet of bytes, of 20 to 4096 bytes, of IP version 4 and with `uid` for the
  -- last byte of its destination, goes on after it has sent one datagram to the address that it keeps
  -- for `uid` and shown what `output_info` prints, if `sendto` sends something and `output_info` does
  -- not fault; its users are as they were, and its statistics are those of `output_info` after the
  -- count of what was sent. The client that receives the datagram writes just this packet to its
  -- tunnel. The buffers on both sides are to have room.
  pub downlink :
      SharesPassword md uid c.client.table node.table
      → client_at s.server uid ≡ some node
      → IsPacketFor uid p
      → HasRoom (length p) c.tmp_buffer c.buffer
      → HasRoom (length p) s.tmp_buffer s.buffer
      → ltb_ℤ (pos 0) r.sent ≡ true
      → output_info r.opens (count_recv r.sent s.globals) ≡ some (g, os)
      → (d : List ℕ) × (t : Loop) × (tun_part r s (some p)
          ≡ go_on t (send_to d node.addr ∷ map show os))
        × (t.server ≡ s.server)
        × (t.globals ≡ g)
        × (c' : Client.Loop) × (Client.sock_part c (some d) ≡ go_on c' (Client.write_tun p ∷ []))
        × (c'.client ≡ c.client)
  downlink shared known packet room room' sent reported =
      let (t, sends, same, same_globals) = server-sends r s node uid p known packet room' in
      let good =
        (build_table-IsCodeTable shared.memory' md uid shared.allocated' shared.digest_bytes
          shared.user_number).0 in
      let (c', receives, client_kept) =
        client-receives node.table (rw shared.server_table good) c uid p s.tmp_buffer s.buffer
          same_table packet room' room in
      (
        wire node.table p s.tmp_buffer s.buffer,
        record t { globals = g },
        sends
            ∙ after_send-reports r t uid _ g os sent
                (ap (λ k. output_info r.opens (count_recv r.sent k)) same_globals ∙ reported),
        same,
        refl,
        c',
        receives,
        client_kept,
      )
    where
      same_table : c.client.table ≡ node.table
      same_table =
          shared.client_table
          ∙ build_table-overwrites shared.memory shared.memory' md uid shared.allocated
              shared.allocated' shared.digest_bytes shared.user_number
          ∙ sym shared.server_table
