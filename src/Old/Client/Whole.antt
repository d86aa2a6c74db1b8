-- ===== src/Old/Client/Whole.antt =====
-- A whole packet through `Encrypt` and `sendto`, or `Decrypt` and `write`, in the Linux client
-- (old-code/old/linux/svpn_client.c).
use s_vpn.Common.{ℕ, ◌≤◌, ◌≡◌, refl, ◌∙◌, ap, List, [], ◌∷◌, length}
use s_vpn.Common.Control.{go_on}
use s_vpn.Crypt.{encrypt, decrypt}
use s_vpn.Crypt.Cipher.{length-encrypt}
use s_vpn.Crypt.Codes.{encode_all}
use s_vpn.Md5.{copy}
use s_vpn.Traffic.Coded.{take-decoded, take-encoded}
use s_vpn.Old.Client.{buffer_len, Loop, write_tun, send_to}
use s_vpn.Old.Client.Linux as Linux
use s_vpn.Crypt.Codes.{decode_all}
use s_vpn.Crypt.Cipher.{length-decrypt}
use s_vpn.Md5.Blocks.{length-copy}

-- The two arrays of a thread.
pub record HasBuffers (s : Loop) : Type 0 where
  pub tmp_size : length s.tmp_buffer ≡ buffer_len
  pub size : length s.buffer ≡ buffer_len

-- Only the arrays change, and not their sizes.
pub record Keeps (s t : Loop) : Type 0 where
  pub room : HasBuffers t
  pub client : t.client ≡ s.client

pub send_packet-Keeps :
    (s : Loop) (p : List ℕ)
    → HasBuffers s
    → length p ≤ buffer_len
    → (t : Loop) × (Linux.send_packet s p
        ≡ go_on t (send_to (encode_all s.client.table p) s.client.server_addr ∷ []))
      × Keeps s t
unfolding Linux.send_packet
send_packet-Keeps s p room fits =
    let t = record s {
      tmp_buffer = copy (length p) s.tmp_buffer 0 p 0;
      buffer = encrypt s.client.table (copy (length p) s.tmp_buffer 0 p 0) s.buffer (length p);
    } in
    (
      t,
      ap (λ d. go_on t (send_to d s.client.server_addr ∷ []))
          (take-encoded s.client.table p s.tmp_buffer s.buffer (rw room.tmp_size fits)
            (rw room.size fits)),
      record {
        room = record {
          tmp_size = length-copy (length p) s.tmp_buffer 0 p 0 ∙ room.tmp_size;
          size = length-encrypt s.client.table _ s.buffer (length p) ∙ room.size;
        };
        client = refl;
      },
    )

pub write_packet-Keeps :
    (s : Loop) (d : List ℕ)
    → HasBuffers s
    → length d ≤ buffer_len
    → (t : Loop) × (Linux.write_packet s d ≡ go_on t (write_tun (decode_all s.client.table d) ∷ []))
      × Keeps s t
unfolding Linux.write_packet
write_packet-Keeps s d room fits =
    let t = record s {
      tmp_buffer = copy (length d) s.tmp_buffer 0 d 0;
      buffer = decrypt s.client.table (copy (length d) s.tmp_buffer 0 d 0) s.buffer (length d);
    } in
    (
      t,
      ap (λ p. go_on t (write_tun p ∷ []))
          (take-decoded s.client.table d s.tmp_buffer s.buffer (rw room.tmp_size fits)
            (rw room.size fits)),
      record {
        room = record {
          tmp_size = length-copy (length d) s.tmp_buffer 0 d 0 ∙ room.tmp_size;
          size = length-decrypt s.client.table _ s.buffer (length d) ∙ room.size;
        };
        client = refl;
      },
    )
