-- ===== src/Old/Client/Packets.antt =====
-- Packets between the older clients.
use s_vpn.Common.{length-append, drop, sym}
use s_vpn.Old.Client.OsxWhole.{tun_part-Keeps, sock_part-Keeps}
use s_vpn.Common.{
  ℕ, ◌+◌, ◌≤◌, ◌<◌, ◌≡◌, refl, sym, ◌∙◌, ap, arith, List, [], ◌∷◌, ◌++◌, length, byte_at, drop,
  IsBytes, length-append, ltb, true, some,
}
use mathlib.Core.Path.{subst}
use s_vpn.Common.Control.{go_on, fault}
use s_vpn.Crypt.Table.{IsCodeTable}
use s_vpn.Crypt.Codes.{length-map, encode_all, decode_all-encode_all}
use s_vpn.Old.Client.{buffer_len, Loop, write_tun, send_to, count_send, count_recv}
use s_vpn.Old.Client.Linux as Linux
use s_vpn.Old.Client.Osx as Osx
use s_vpn.Old.Client.Whole.{HasBuffers, send_packet-Keeps, write_packet-Keeps}

drop-append : (before p : List ℕ) → drop (length before) (before ++ p) ≡ p
drop-append [] p = refl
drop-append (b ∷ before) p = drop-append before p

-- An OS X client sends the codes of what follows the four bytes.
osx-sends :
    (s : Loop) (before p : List ℕ)
    → HasBuffers s
    → length before ≡ 4
    → length p + 4 ≤ buffer_len
    → (s' : Loop) × (Osx.tun_part s (some (before ++ p))
        ≡ go_on s' (send_to (encode_all s.client.table p) s.client.server_addr ∷ []))
osx-sends s before p room four fits =
    let (s', e, kept) =
      tun_part-Keeps s (before ++ p) room (omega (arith, length-append before p))
        (omega (arith, length-append before p)) in
    (
      s',
      e
          ∙ ap (λ q. go_on s' (send_to (encode_all s.client.table q) s.client.server_addr ∷ []))
              (ap (λ n. drop n (before ++ p)) (sym four) ∙ drop-append before p),
    )

module _ (s : Loop) (p : List ℕ) (room : HasBuffers s) (good : IsCodeTable s.client.table)
    (bytes : IsBytes p) where
  abbrev coded : List ℕ
  coded = encode_all s.client.table p

  size_coded : length coded ≡ length p
  size_coded = length-map (λ b. byte_at s.client.table.encode b) p

  linux-writes :
      length p ≤ buffer_len
      → (s' : Loop) × (Linux.sock_part s (some coded) ≡ go_on s' (write_tun p ∷ []))
        × (s'.client ≡ s.client)
  unfolding Linux.sock_part
  linux-writes fits =
      let (s', e, kept) =
        write_packet-Keeps (count_recv s) coded
          (record { tmp_size = room.tmp_size; size = room.size }) (rw size_coded fits) in
      (
        s',
        e
            ∙ ap (λ q. go_on s' (write_tun q ∷ []))
                (decode_all-encode_all s.client.table p good bytes),
        kept.client,
      )

  osx-writes :
      length p + 4 ≤ buffer_len
      → (s' : Loop) × (Osx.sock_part s (some coded) ≡ go_on s' (write_tun (Osx.header ++ p) ∷ []))
        × (s'.client ≡ s.client)
  osx-writes fits =
      let (s', e, kept) = sock_part-Keeps s coded room (rw size_coded fits) in
      (
        s',
        e
            ∙ ap (λ q. go_on s' (write_tun (Osx.header ++ q) ∷ []))
                (decode_all-encode_all s.client.table p good bytes),
        kept.client,
      )

  osx-overruns : buffer_len < length p + 4 → Osx.sock_part s (some coded) ≡ fault
  unfolding Osx.sock_part
  osx-overruns h = rw (beyond (length coded) (rw size_coded h))
    where
      beyond : (n : ℕ) → buffer_len < n + 4 → ltb buffer_len (n + 4) ≡ true
      beyond n h = ground arith

-- What a peer does with a datagram that carries `p`: a Linux client puts `p` on its tunnel, and an
-- OS X client `p` behind its header, or the latter runs over its buffer.
pub record Delivers (linux osx : Loop) (p d : List ℕ) : Type 0 where
  pub to_linux :
      (s' : Loop) × (Linux.sock_part linux (some d) ≡ go_on s' (write_tun p ∷ []))
      × (s'.client ≡ linux.client)
  pub to_osx :
      length p + 4 ≤ buffer_len
      → (s' : Loop) × (Osx.sock_part osx (some d) ≡ go_on s' (write_tun (Osx.header ++ p) ∷ []))
        × (s'.client ≡ osx.client)
  pub over : buffer_len < length p + 4 → Osx.sock_part osx (some d) ≡ fault

module _ (s linux osx : Loop) (p : List ℕ) (room : HasBuffers s) (room' : HasBuffers linux)
    (room'' : HasBuffers osx) (good : IsCodeTable s.client.table) (bytes : IsBytes p)
    (same : linux.client.table ≡ s.client.table) (same' : osx.client.table ≡ s.client.table) where
  coded-Delivers : length p ≤ buffer_len → Delivers linux osx p (encode_all s.client.table p)
  coded-Delivers fits = record {
    to_linux =
        subst
          (λ d.
            (s' : Loop) × (Linux.sock_part linux (some d) ≡ go_on s' (write_tun p ∷ []))
            × (s'.client ≡ linux.client))
          (ap (λ t. encode_all t p) same)
          (linux-writes linux p room' (subst IsCodeTable (sym same) good) bytes fits);
    to_osx = λ fits.
        subst
          (λ d.
            (s' : Loop) × (Osx.sock_part osx (some d) ≡ go_on s' (write_tun (Osx.header ++ p) ∷ []))
            × (s'.client ≡ osx.client))
          (ap (λ t. encode_all t p) same')
          (osx-writes osx p room'' (subst IsCodeTable (sym same') good) bytes fits);
    over = λ h.
        subst (λ d. Osx.sock_part osx (some d) ≡ fault) (ap (λ t. encode_all t p) same')
          (osx-overruns osx p room'' (subst IsCodeTable (sym same') good) bytes h);
  }

  -- A packet of at most 4096 bytes that a Linux client reads from its tunnel is sent as one
  -- datagram to the server's address. A Linux client that gets the datagram puts just the packet on
  -- its tunnel; an OS X client puts the packet behind the header 0, 0, 0, 2 there if the packet has
  -- at most 4092 bytes, and else writes past its buffer. The three have one table with its inverse,
  -- and arrays of 4096 bytes.
  pub from_linux-Delivers :
      length p ≤ buffer_len
      → (s' : Loop) × (d : List ℕ) × (Linux.tun_part s (some p)
          ≡ go_on s' (send_to d s.client.server_addr ∷ []))
        × Delivers linux osx p d
  unfolding Linux.tun_part
  from_linux-Delivers fits =
      let (s', sent, kept) =
        send_packet-Keeps (count_send s) p (record { tmp_size = room.tmp_size; size = room.size })
          fits in
      (s', encode_all s.client.table p, sent, coded-Delivers fits)

  -- The same for what an OS X client reads from its tunnel, four bytes and a packet of at most 4092
  -- bytes: the datagram has the packet without the four bytes, and both clients put it on their
  -- tunnels as above.
  from_osx-Delivers :
      (before : List ℕ)
      → length before ≡ 4
      → length p + 4 ≤ buffer_len
      → (s' : Loop) × (d : List ℕ) × (Osx.tun_part s (some (before ++ p))
          ≡ go_on s' (send_to d s.client.server_addr ∷ []))
        × Delivers linux osx p d
  from_osx-Delivers before four fits =
      let (s', sent) = osx-sends s before p room four fits in
      (s', encode_all s.client.table p, sent, coded-Delivers (omega arith))
