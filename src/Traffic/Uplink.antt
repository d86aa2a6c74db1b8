-- ===== src/Traffic/Uplink.antt =====
-- From a client's tunnel to the server's.
use s_vpn.Common.{
  ℕ, ◌≤◌, ◌<◌, ◌≡◌, sym, ◌∙◌, ap, arith, List, [], ◌∷◌, length, byte_at, take, IsBytes, ◌==◌,
  if◌then◌else◌, ltb, ◌||◌, true, false, some,
}
use s_vpn.Common.Int.{pos, ◌+ℤ◌, ltb_ℤ, to_int32}
use s_vpn.Server.Loop.{
  buffer_len, ClientNode, Loop, Round, client_at, is_source, count_send, from_client, sock_part,
}
use s_vpn.Common.Control.{go_on}
use s_vpn.Crypt.{CodeTable, encrypt, decrypt, ip_magic_header, build_table}
use s_vpn.Crypt.Table.{IsCodeTable, IsAllocated, build_table-IsCodeTable, build_table-overwrites}
use s_vpn.Md5.{copy}
use s_vpn.Server.Status.{Globals, Output, output_info}
use s_vpn.Server.Accept.{IsMoved, accepted_effects, from_client-accepts, settled}
use s_vpn.Client.Loop as Client
use s_vpn.Traffic.Datagram.{
  byte_at-fill, wire, length-wire, byte_at-wire, byte_at-opened, take-opened,
}

-- A datagram of a fitting size reaches `from_client`.
pub sock_part-fits :
    (r : Round) (s : Loop) (d from : List ℕ)
    → 1 ≤ length d
    → length d ≤ buffer_len
    → sock_part r s (some (d, from)) ≡ (
        let tmp = copy (length d) s.tmp_buffer 0 d 0 in
        from_client r
          (record s { tmp_buffer = tmp; addr = from })
          (length d)
          (byte_at tmp 0)
          (client_at s.server (byte_at tmp 0)))
unfolding sock_part
sock_part-fits r s d from some_bytes fits = rw (sizes (length d) some_bytes fits)
  where
    sizes : (n : ℕ) → 1 ≤ n → n ≤ buffer_len → (n == 0 || ltb buffer_len n) ≡ false
    sizes n h k = ground arith

-- What the client prints if `sendto` fails.
abbrev pub drop_message : Client.Round → List Client.Effect
drop_message r = if ltb_ℤ (pos 0) r.sent then [] else Client.say_dropped ∷ []

-- A client sends a packet as one datagram to the server.
pub client-sends :
    (r : Client.Round) (c : Client.Loop) (p : List ℕ)
    → length p ≤ Client.buffer_len
    → (c' : Client.Loop) × (Client.tun_part r c (some p)
        ≡ go_on c' (
            Client.send_to (wire c.client.table p c.tmp_buffer c.buffer) c.client.server_addr
            ∷ drop_message r))
unfolding Client.tun_part
client-sends r c p fits = (
  record c {
    tmp_buffer = copy (length p) c.tmp_buffer 0 p 0;
    buffer = encrypt c.client.table (copy (length p) c.tmp_buffer 0 p 0) c.buffer (length p);
    sendc = to_int32 (c.sendc +ℤ pos (length p));
  },
  rw (size (length p) fits),
)
  where
    size : (n : ℕ) → n ≤ Client.buffer_len → ltb Client.buffer_len n ≡ false
    size n h = ground arith

-- The buffers have room for a packet.
pub record HasRoom (len : ℕ) (tmp buffer : List ℕ) : Type 0 where
  pub in_tmp : len ≤ length tmp
  pub in_buffer : len ≤ length buffer

-- An IPv4 packet of user `uid` that the loops can carry.
pub record IsPacketOf (local_addr : List ℕ) (uid : ℕ) (p : List ℕ) : Type 0 where
  pub bytes : IsBytes p
  pub header : 16 ≤ length p
  pub fits : length p ≤ buffer_len
  pub version : byte_at p 0 ≡ ip_magic_header
  pub source : is_source p local_addr uid ≡ true

is_source-same :
    (p q net : List ℕ) (uid : ℕ)
    → ((k : ℕ) → k < 16 → byte_at q k ≡ byte_at p k)
    → is_source p net uid ≡ true
    → is_source q net uid ≡ true
is_source-same p q net uid same h =
    rw (same 12 (omega arith), same 13 (omega arith), same 14 (omega arith), same 15 (omega arith))
      h

module _ (ct : CodeTable) (good : IsCodeTable ct) (uid : ℕ)
    (identity : byte_at ct.encode ip_magic_header ≡ uid) (r : Round) (s : Loop) (node : ClientNode)
    (p from tmp buffer : List ℕ) (g : Globals) (os : List Output) where
  -- The server takes a client's datagram for what it is, and puts the packet on its tunnel.
  pub server-receives :
      node.table ≡ ct
      → client_at s.server uid ≡ some node
      → IsPacketOf s.server.local_addr uid p
      → HasRoom (length p) tmp buffer
      → HasRoom (length p) s.tmp_buffer s.buffer
      → output_info r.opens (count_send (length p) s.globals) ≡ some (g, os)
      → (t : Loop) × (sock_part r s (some (wire ct p tmp buffer, from))
          ≡ go_on t (accepted_effects (record s { addr = from }) uid node os p))
        × IsMoved s t uid node from
  server-receives table known packet room room' reported =
      (settled r s1 (length d) uid node g os known reported', result, accepted)
    where
      d : List ℕ
      d = wire ct p tmp buffer

      size : length d ≡ length p
      size = length-wire ct p tmp buffer room.in_tmp room.in_buffer

      s1 : Loop
      s1 = record s { tmp_buffer = copy (length d) s.tmp_buffer 0 d 0; addr = from }

      reported' : output_info r.opens (count_send (length d) s1.globals) ≡ some (g, os)
      reported' = rw size reported

      first : byte_at s1.tmp_buffer 0 ≡ uid
      first =
          byte_at-fill d s.tmp_buffer 0 (rw size room'.in_tmp)
            (rw size (omega (arith, packet.header)))
          ∙ byte_at-wire ct p tmp buffer room.in_tmp room.in_buffer 0 (omega (arith, packet.header))
          ∙ ap (byte_at ct.encode) packet.version
          ∙ identity

      accepted_source :
          is_source (decrypt node.table s1.tmp_buffer s.buffer (length d)) s.server.local_addr uid
          ≡ true
      accepted_source = rw table (
          is_source-same p _ s.server.local_addr uid
            (λ k h.
              byte_at-opened ct p tmp buffer room.in_tmp room.in_buffer good packet.bytes
                s.tmp_buffer s.buffer room'.in_tmp room'.in_buffer k (omega (arith, packet.header)))
            packet.source)

      whole : take (length d) (decrypt node.table s1.tmp_buffer s.buffer (length d)) ≡ p
      whole = rw table (
          ap (λ n. take n (decrypt ct s1.tmp_buffer s.buffer (length d))) size
          ∙ take-opened ct p tmp buffer room.in_tmp room.in_buffer good packet.bytes s.tmp_buffer
              s.buffer room'.in_tmp room'.in_buffer)

      result :
          sock_part r s (some (d, from))
          ≡ go_on
              (settled r s1 (length d) uid node g os known reported')
              (accepted_effects (record s { addr = from }) uid node os p)
      result =
          sock_part-fits r s d from (rw size (omega (arith, packet.header))) (rw size packet.fits)
          ∙ rw (first, known)
              ((from_client-accepts r s1 (length d) uid node g os known reported' accepted_source).0
                ∙ rw whole)

      accepted : IsMoved s (settled r s1 (length d) uid node g os known reported') uid node from
      accepted =
          let m =
            (from_client-accepts r s1 (length d) uid node g os known reported' accepted_source).1 in
          record { moved = m.moved; others = m.others }

-- Both sides build their tables from the password's digest `md` and the user's number.
pub record SharesPassword (md : List ℕ) (uid : ℕ) (client server : CodeTable) : Type 0 where
  pub digest_bytes : IsBytes md
  pub user_number : uid < 256
  pub memory : CodeTable
  pub memory' : CodeTable
  pub allocated : IsAllocated memory
  pub allocated' : IsAllocated memory'
  pub client_table : client ≡ build_table memory md uid
  pub server_table : server ≡ build_table memory' md uid

module _ (md : List ℕ) (uid : ℕ) (c : Client.Loop) (cr : Client.Round) (r : Round) (s : Loop)
    (node : ClientNode) (p from : List ℕ) (g : Globals) (os : List Output) where
  -- The client and the server's entry for `uid` have tables built from one digest of bytes and the
  -- number `uid` below 256. The client reads from its tunnel a packet of bytes, of 16 to 4096 bytes,
  -- that begins with 0x45 and has the server's net and `uid` for its source; the buffers on both
  -- sides have room; and the server's `output_info` does not fault. Then the client sends one
  -- datagram to its server and has no other effect but its message if `sendto` fails, and the server
  -- that receives it goes on, writes just this packet to its tunnel after the lines that it prints,
  -- keeps the sender's address for `uid`, and changes the entry of no other user.
  pub uplink :
      SharesPassword md uid c.client.table node.table
      → client_at s.server uid ≡ some node
      → IsPacketOf s.server.local_addr uid p
      → HasRoom (length p) c.tmp_buffer c.buffer
      → HasRoom (length p) s.tmp_buffer s.buffer
      → output_info r.opens (count_send (length p) s.globals) ≡ some (g, os)
      → (c' : Client.Loop) × (d : List ℕ) × (Client.tun_part cr c (some p)
          ≡ go_on c' (Client.send_to d c.client.server_addr ∷ drop_message cr))
        × (t : Loop) × (sock_part r s (some (d, from))
            ≡ go_on t (accepted_effects (record s { addr = from }) uid node os p))
        × IsMoved s t uid node from
  uplink shared known packet room room' reported =
      let (c', sends) = client-sends cr c p packet.fits in
      let (good, identity) =
        build_table-IsCodeTable shared.memory md uid shared.allocated shared.digest_bytes
          shared.user_number in
      let (t, receives, moved) =
        server-receives c.client.table (rw shared.client_table good) uid
          (rw shared.client_table identity) r s node p from c.tmp_buffer c.buffer g os same_table
          known packet room room' reported in
      (c', wire c.client.table p c.tmp_buffer c.buffer, sends, t, receives, moved)
    where
      same_table : node.table ≡ c.client.table
      same_table =
          shared.server_table
          ∙ build_table-overwrites shared.memory' shared.memory md uid shared.allocated'
              shared.allocated shared.digest_bytes shared.user_number
          ∙ sym shared.client_table
