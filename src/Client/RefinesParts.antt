-- ===== src/Client/RefinesParts.antt =====
-- The two parts of a round of the client do what the relay's parts do.
use s_vpn.Traffic.Refining as Refining
use s_vpn.Common.{
  ℕ, ◌/◌, ◌≤◌, ◌≡◌, refl, sym, ◌∙◌, ap, arith, List, [], ◌∷◌, length, byte_at, take, ◌==◌,
  if◌then◌else◌, Bool-cases, inl, inr, ltb, Bool, true, false, Option, none, some,
}
use s_vpn.Common.Int.{pos, ◌+ℤ◌, ltb_ℤ, to_int32}
use s_vpn.Crypt.{CodeTable, decrypt}
use s_vpn.Crypt.Cipher.{length-encrypt, length-decrypt}
use s_vpn.Crypt.Codes.{byte_at-map, encode_all, decode_all}
use s_vpn.Md5.{copy}
use s_vpn.Md5.Blocks.{length-copy}
use s_vpn.Client.Loop.{buffer_len, Loop, Round, say_dropped, Outcome, tun_part, sock_part}
use s_vpn.Client.Relay.{to_tun, to_net, Turn, relay_out, relay_in}
use s_vpn.Traffic.Coded.{byte_at-decoded, take-decoded, take-encoded}
use s_vpn.Client.Refines.{packets_of, IsClient, FitsOut, FitsIn}

within : (n : ℕ) → n ≤ buffer_len → ltb buffer_len n ≡ false
within n h = ground arith

says_nothing : (b : Bool) → packets_of (if b then [] else say_dropped ∷ []) ≡ []
says_nothing true = refl
says_nothing false = refl

module _ (ct : CodeTable) (server_addr : List ℕ) where
  -- The end of a part of a round, as the relay has it.
  abbrev pub Follows : Outcome → Turn → Type 0
  Follows o turn = Refining.Follows (IsClient ct server_addr) packets_of o turn

  pub tun_part-Follows :
      (r : Round) (s : Loop) (read : Option (List ℕ))
      → IsClient ct server_addr s
      → FitsOut read
      → Follows (tun_part r s read) (relay_out ct server_addr read)
  unfolding tun_part
  tun_part-Follows r s none c fits = (refl, c, refl)
  tun_part-Follows r s (some p) c fits = rw (within (length p) fits) (
    refl,
    record {
      table = c.table;
      server = c.server;
      buffer_size = length-encrypt s.client.table _ s.buffer (length p) ∙ c.buffer_size;
      tmp_size = length-copy (length p) s.tmp_buffer 0 p 0 ∙ c.tmp_size;
    },
    (let bytes =
          take-encoded s.client.table p s.tmp_buffer s.buffer (rw c.tmp_size fits)
            (rw c.buffer_size fits)
          ∙ ap (λ t. encode_all t p) c.table in
        λ i. to_net (bytes i) (c.server i) ∷ says_nothing (ltb_ℤ (pos 0) r.sent) i),
  )

  pub sock_part-Follows :
      (s : Loop) (received : Option (List ℕ))
      → IsClient ct server_addr s
      → FitsIn received
      → Follows (sock_part s received) (relay_in ct server_addr received)
  unfolding sock_part
  sock_part-Follows s none c fits = (refl, c, refl)
  sock_part-Follows s (some d) c (some_byte, fits) = rw (within (length d) fits) (
      rw (first) (elim (Bool-cases (byte_at (decode_all ct d) 0 / 16 == 4)) [
        | inl v4 ↦ rw (v4) (refl, kept, ap (λ p. to_tun p ∷ []) whole)
        | inr other ↦ rw (other) (refl, kept, refl)
      ]))
    where
      kept : IsClient ct server_addr (record s {
        tmp_buffer = copy (length d) s.tmp_buffer 0 d 0;
        buffer = decrypt s.client.table (copy (length d) s.tmp_buffer 0 d 0) s.buffer (length d);
        recvc = to_int32 (s.recvc +ℤ pos (length d));
      })
      kept = record {
        table = c.table;
        server = c.server;
        buffer_size =
            length-decrypt s.client.table (copy (length d) s.tmp_buffer 0 d 0) s.buffer (length d)
            ∙ c.buffer_size;
        tmp_size = length-copy (length d) s.tmp_buffer 0 d 0 ∙ c.tmp_size;
      }

      first :
          byte_at
            (decrypt s.client.table (copy (length d) s.tmp_buffer 0 d 0) s.buffer (length d))
            0
          ≡ byte_at (decode_all ct d) 0
      first =
          byte_at-decoded s.client.table d s.tmp_buffer s.buffer (rw c.tmp_size fits)
            (rw c.buffer_size fits) 0 some_byte
          ∙ ap (λ t. byte_at t.decode (byte_at d 0)) c.table
          ∙ sym (byte_at-map (λ b. byte_at ct.decode b) d 0 some_byte)

      whole :
          take
            (length d)
            (decrypt s.client.table (copy (length d) s.tmp_buffer 0 d 0) s.buffer (length d))
          ≡ decode_all ct d
      whole =
          take-decoded s.client.table d s.tmp_buffer s.buffer (rw c.tmp_size fits)
            (rw c.buffer_size fits)
          ∙ ap (λ t. decode_all t d) c.table
