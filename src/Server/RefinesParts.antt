-- ===== src/Server/RefinesParts.antt =====
-- The socket's part and the tunnel's part of a round, against the relay.
use s_vpn.Common.{
  ℕ, ◌≤◌, ◌≡◌, refl, sym, ◌∙◌, ap, arith, List, [], ◌∷◌, map, length, byte_at, take, ◌==◌,
  Bool-cases, Option-cases, inl, inr, ltb, ◌||◌, true, false, ℕ_discrete, Option, none, some,
}
use s_vpn.Common.Int.{pos, ltb_ℤ}
use mathlib.Core.Path.{fun_ext}
use s_vpn.Common.Control.{skip, fault}
use s_vpn.Crypt.{encrypt, decrypt}
use s_vpn.Md5.{copy}
use s_vpn.Server.Loop.{
  buffer_len, ClientNode, Loop, Round, invalid_password, unknown_user, send_to, say, show, bytes_eq,
  client_at, is_source, deliver, count_send, count_recv, moved_message, accept, from_client,
  sock_part, after_send, to_client, tun_part,
}
use s_vpn.Server.Status.{Output, output_info}
use s_vpn.Server.Accept.{IsMoved, accepted_effects, from_client-accepts, globals-relocate}
use s_vpn.Server.Relay.{to_tun, to_net, enter, admit, relay_in, forward, relay_out}
use s_vpn.Server.Refines.{
  peers_of, packets_of, packets_of-append, packets_of-show, Follows, Yields, HasArrays, source_same,
}
use s_vpn.Traffic.Datagram.{byte_at-fill}
use s_vpn.Traffic.Coded.{take-decoded, take-encoded}
use s_vpn.Traffic.Uplink.{sock_part-fits}

-- The sizes for which the source's checks of the header read the packet itself.
abbrev pub FitsIn : Option (List ℕ × List ℕ) → Type 0
FitsIn none = Unit
FitsIn (some (d, from)) = (16 ≤ length d) × (length d ≤ buffer_len)

abbrev pub FitsOut : Option (List ℕ) → Type 0
FitsOut none = Unit
FitsOut (some p) = (20 ≤ length p) × (length p ≤ buffer_len)

peers_of-moved :
    (s t : Loop) (uid : ℕ) (node : ClientNode) (from : List ℕ)
    → IsMoved s t uid node from
    → peers_of t ≡ enter (peers_of s) uid (record node { addr = from })
peers_of-moved s t uid node from m = fun_ext λ j. elim (ℕ_discrete uid j) [
  | yes e ↦ rw (same j e) (ap (client_at t.server) (sym e) ∙ m.moved)
  | no n ↦ rw (other j n) (m.others j (λ e. n (sym e)))
]
  where
    same : (j : ℕ) → uid ≡ j → (uid == j) ≡ true
    same j e = ground arith

    other : (j : ℕ) → ¬ (uid ≡ j) → (uid == j) ≡ false
    other j n = ground arith

packets_of-accepted :
    (s : Loop) (uid : ℕ) (node : ClientNode) (os : List Output) (p : List ℕ)
    → packets_of (accepted_effects s uid node os p) ≡ to_tun p ∷ []
packets_of-accepted s uid node os p =
    packets_of-append (moved_message s uid node) _
    ∙ rw (quiet, packets_of-append (map show os), packets_of-show os)
  where
    quiet : packets_of (moved_message s uid node) ≡ []
    quiet = elim (Bool-cases (bytes_eq s.addr node.addr)) [ inl e ↦ rw e | inr e ↦ rw e ]

accept-faults :
    (r : Round) (s : Loop) (len uid : ℕ) (node : ClientNode)
    → output_info r.opens (count_send len s.globals) ≡ none
    → accept r s len uid node ≡ fault
unfolding accept deliver
accept-faults r s len uid node e = rw (globals-relocate s uid node, e)

module _ (r : Round) (s : Loop) (d from : List ℕ) (arrays : HasArrays s)
    (fits : (16 ≤ length d) × (length d ≤ buffer_len)) where
  abbrev filled : Loop
  filled = record s { tmp_buffer = copy (length d) s.tmp_buffer 0 d 0; addr = from }

  abbrev decoded : ClientNode → List ℕ
  decoded node = decrypt node.table filled.tmp_buffer s.buffer (length d)

  from_client-unknown :
      (uid : ℕ)
      → from_client r filled (length d) uid none ≡ skip filled (say (unknown_user uid) ∷ [])
  unfolding from_client
  from_client-unknown uid = refl

  from_client-refused :
      (uid : ℕ) (node : ClientNode)
      → is_source (decoded node) s.server.local_addr uid ≡ false
      → from_client r filled (length d) uid (some node)
        ≡ skip (record filled { buffer = decoded node }) (say (invalid_password from) ∷ [])
  unfolding from_client
  from_client-refused uid node bad = rw bad

  from_client-faults :
      (uid : ℕ) (node : ClientNode)
      → is_source (decoded node) s.server.local_addr uid ≡ true
      → output_info r.opens (count_send (length d) s.globals) ≡ none
      → from_client r filled (length d) uid (some node) ≡ fault
  unfolding from_client
  from_client-faults uid node good faults =
      rw good (accept-faults r (record filled { buffer = decoded node }) (length d) uid node faults)

  from_client-Follows :
      (uid : ℕ) (c : Option ClientNode)
      → uid ≡ byte_at d 0
      → client_at s.server uid ≡ c
      → Follows
          (from_client r filled (length d) uid c)
          (admit s.server.local_addr (peers_of s) d from c)
  from_client-Follows uid none e known = rw (from_client-unknown uid) (refl, refl, refl)
  from_client-Follows uid (some node) e known =
      elim (Bool-cases (is_source (decoded node) s.server.local_addr uid)) [
        | inr bad ↦ rw (from_client-refused uid node bad, ← e, ← source, bad) (refl, refl, refl)
        | inl good ↦ elim (Option-cases (output_info r.opens (count_send (length d) s.globals))) [
          | inl faults ↦ rw (from_client-faults uid node good faults) tt
          | inr ((g, os), reported) ↦
              let (step, moved) =
                from_client-accepts r filled (length d) uid node g os known reported good in
              rw (step, ← e, ← source, good)
                (
                  refl,
                  peers_of-moved filled _ uid node from moved,
                  packets_of-accepted filled uid node os _ ∙ ap (λ p. to_tun p ∷ []) whole,
                )
        ]
      ]
    where
      source :
          is_source (decoded node) s.server.local_addr uid
          ≡ is_source (map (λ b. byte_at node.table.decode b) d) s.server.local_addr uid
      source =
          source_same node.table d s.tmp_buffer s.buffer (rw arrays.tmp_size fits.1)
            (rw arrays.buffer_size fits.1) s.server.local_addr uid fits.0

      whole : take (length d) (decoded node) ≡ map (λ b. byte_at node.table.decode b) d
      whole =
          take-decoded node.table d s.tmp_buffer s.buffer (rw arrays.tmp_size fits.1)
            (rw arrays.buffer_size fits.1)

pub sock_part-Follows :
    (r : Round) (s : Loop) (o : Option (List ℕ × List ℕ))
    → HasArrays s
    → FitsIn o
    → Follows (sock_part r s o) (relay_in s.server.local_addr (peers_of s) o)
sock_part-Follows r s none arrays fits = rw (failed_receive r s) (refl, refl, refl)
  where
    failed_receive : (r : Round) (s : Loop) → sock_part r s none ≡ skip s []
    failed_receive r s = unfold sock_part in refl
sock_part-Follows r s (some (d, from)) arrays fits =
    rw (sock_part-fits r s d from (omega arith) fits.1, first)
      (from_client-Follows r s d from arrays fits (byte_at d 0) _ refl refl)
  where
    first : byte_at (copy (length d) s.tmp_buffer 0 d 0) 0 ≡ byte_at d 0
    first = byte_at-fill d s.tmp_buffer 0 (rw arrays.tmp_size fits.1) (omega (arith, fits.0))

-- What follows `sendto`, for the packet that it was given.
after_send-Yields :
    (r : Round) (s : Loop) (uid : ℕ) (d addr : List ℕ)
    → Yields (after_send r s uid (send_to d addr)) (peers_of s) (to_net d addr ∷ [])
unfolding after_send
after_send-Yields r s uid d addr = elim (Bool-cases (ltb_ℤ (pos 0) r.sent)) [
  | inr lost ↦ rw lost (refl, refl)
  | inl sent ↦ elim (Option-cases (output_info r.opens (count_recv r.sent s.globals))) [
    | inl faults ↦ rw (sent, faults) tt
    | inr ((g, os), reported) ↦
        rw (sent, reported) (refl, ap (λ ps. to_net d addr ∷ ps) (packets_of-show os))
  ]
]

fits_buffer : (n : ℕ) → 20 ≤ n → n ≤ buffer_len → (n == 0 || ltb buffer_len n) ≡ false
fits_buffer n h k = ground arith

module _ (r : Round) (s : Loop) (arrays : HasArrays s) where
  to_client-Yields :
      (p : List ℕ) (uid : ℕ) (c : Option ClientNode)
      → (20 ≤ length p) × (length p ≤ buffer_len)
      → Yields
          (to_client r
            (record s { tmp_buffer = copy (length p) s.tmp_buffer 0 p 0 })
            (length p)
            uid
            c)
          (forward (peers_of s) p c).peers
          (forward (peers_of s) p c).packets
  unfolding to_client
  to_client-Yields p uid none fits = (refl, refl)
  to_client-Yields p uid (some node) fits =
      rw (← whole) (after_send-Yields r sent uid (take (length p) sent.buffer) node.addr)
    where
      sent : Loop
      sent = record s {
        tmp_buffer = copy (length p) s.tmp_buffer 0 p 0;
        buffer = encrypt node.table (copy (length p) s.tmp_buffer 0 p 0) s.buffer (length p);
      }

      whole :
          take
            (length p)
            (encrypt node.table (copy (length p) s.tmp_buffer 0 p 0) s.buffer (length p))
          ≡ map (λ b. byte_at node.table.encode b) p
      whole =
          take-encoded node.table p s.tmp_buffer s.buffer (rw arrays.tmp_size fits.1)
            (rw arrays.buffer_size fits.1)

  pub tun_part-Yields :
      (o : Option (List ℕ))
      → FitsOut o
      → Yields (tun_part r s o) (relay_out (peers_of s) o).peers (relay_out (peers_of s) o).packets
  unfolding tun_part
  tun_part-Yields none fits = (refl, refl)
  tun_part-Yields (some p) fits =
      rw (fits_buffer (length p) fits.0 fits.1, last) (to_client-Yields p (byte_at p 19) _ fits)
    where
      last : byte_at (copy (length p) s.tmp_buffer 0 p 0) 19 ≡ byte_at p 19
      last = byte_at-fill p s.tmp_buffer 19 (rw arrays.tmp_size fits.1) (omega (arith, fits.0))
