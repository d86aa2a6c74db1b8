-- ===== src/Traffic/Stale.antt =====
-- A datagram that is too short to hold an IPv4 header: the check of the source reads what the
-- last packet left in the server's buffer.
use s_vpn.Common.{ℕ, ◌≤◌, ◌≡◌, ◌∙◌, arith, List, length, byte_at, take, ltb, true, false, some}
use s_vpn.Server.Loop.{ClientNode, Loop, Round, client_at, is_source, count_send, sock_part}
use s_vpn.Common.Control.{go_on}
use s_vpn.Crypt.{decrypt}
use s_vpn.Crypt.Cipher.{byte_at-decrypt}
use s_vpn.Md5.{copy}
use s_vpn.Server.Status.{Globals, Output, output_info}
use s_vpn.Server.Accept.{IsMoved, accepted_effects, from_client-accepts, settled}
use s_vpn.Traffic.Datagram.{byte_at-fill}
use s_vpn.Traffic.Uplink.{HasRoom, sock_part-fits}

module _ (r : Round) (s : Loop) (d from : List ℕ) (uid : ℕ) (node : ClientNode) (g : Globals)
    (os : List Output) where
  -- If the server's buffer still holds a packet from user `uid`, a datagram of 1 to 12 bytes whose
  -- first byte is the user's number passes the check of the source, whatever else it holds and
  -- whoever sends it (the buffers have room and `output_info` does not fault): the server writes to
  -- its tunnel, and from then on keeps the sender's address for `uid`.
  pub short_datagram-IsMoved :
      1 ≤ length d
      → length d ≤ 12
      → byte_at d 0 ≡ uid
      → client_at s.server uid ≡ some node
      → is_source s.buffer s.server.local_addr uid ≡ true
      → HasRoom (length d) s.tmp_buffer s.buffer
      → output_info r.opens (count_send (length d) s.globals) ≡ some (g, os)
      → (t : Loop) × (p : List ℕ) × (sock_part r s (some (d, from))
          ≡ go_on t (accepted_effects (record s { addr = from }) uid node os p))
        × IsMoved s t uid node from
  short_datagram-IsMoved some_bytes short first known stale room reported = (
    settled r s1 (length d) uid node g os known reported,
    take (length d) (decrypt node.table s1.tmp_buffer s.buffer (length d)),
    sock_part-fits r s d from some_bytes (omega arith)
        ∙ rw (user, known)
            (from_client-accepts r s1 (length d) uid node g os known reported passes).0,
    record {
      moved = (from_client-accepts r s1 (length d) uid node g os known reported passes).1.moved;
      others = (from_client-accepts r s1 (length d) uid node g os known reported passes).1.others;
    },
  )
    where
      s1 : Loop
      s1 = record s { tmp_buffer = copy (length d) s.tmp_buffer 0 d 0; addr = from }

      user : byte_at s1.tmp_buffer 0 ≡ uid
      user = byte_at-fill d s.tmp_buffer 0 room.in_tmp some_bytes ∙ first

      beyond : (n k : ℕ) → n ≤ 12 → 12 ≤ k → ltb k n ≡ false
      beyond n k h l = ground arith

      kept :
          (k : ℕ)
          → 12 ≤ k
          → byte_at (decrypt node.table s1.tmp_buffer s.buffer (length d)) k ≡ byte_at s.buffer k
      kept k l =
          byte_at-decrypt node.table s1.tmp_buffer s.buffer (length d) k room.in_buffer
          ∙ rw (beyond (length d) k short l)

      passes :
          is_source (decrypt node.table s1.tmp_buffer s.buffer (length d)) s.server.local_addr uid
          ≡ true
      passes =
          rw
            (
              kept 12 (omega arith),
              kept 13 (omega arith),
              kept 14 (omega arith),
              kept 15 (omega arith),
            )
            stale
