-- ===== src/Old/Client/OsxWhole.antt =====
-- A whole packet through the parts of the OS X client (old-code/old/osx/svpn_client.c).
use s_vpn.Common.{
  ℕ, suc, ◌+◌, ◌-◌, ◌≤◌, ◌<◌, ◌≡◌, refl, sym, ◌∙◌, ap, arith, List, [], ◌∷◌, ◌++◌, length, byte_at,
  take, drop, get_or-drop, length-drop, ltb, true, false, some,
}
use s_vpn.Common.Control.{go_on}
use s_vpn.Crypt.{encrypt, decrypt}
use s_vpn.Crypt.Cipher.{byte_at-encrypt, length-encrypt, length-decrypt}
use s_vpn.Crypt.Codes.{take-coded, encode_all, decode_all}
use s_vpn.Md5.{copy}
use s_vpn.Md5.Blocks.{length-copy}
use s_vpn.Traffic.Datagram.{byte_at-fill}
use s_vpn.Traffic.Coded.{take-decoded}
use s_vpn.Old.Client.{buffer_len, Loop, write_tun, send_to, count_send, count_recv}
use s_vpn.Old.Client.Osx as Osx
use s_vpn.Old.Client.Whole.{HasBuffers, Keeps}

pub tun_part-Keeps :
    (s : Loop) (w : List ℕ)
    → HasBuffers s
    → 4 ≤ length w
    → length w ≤ buffer_len
    → (t : Loop) × (Osx.tun_part s (some w)
        ≡ go_on t (send_to (encode_all s.client.table (drop 4 w)) s.client.server_addr ∷ []))
      × Keeps s t
unfolding Osx.tun_part
tun_part-Keeps s w room four fits = (
  t,
  rw (long (length w) four) (ap (λ d. go_on t (send_to d s.client.server_addr ∷ [])) whole),
  record {
    room = record {
      tmp_size = length-copy (length w) s.tmp_buffer 0 w 0 ∙ room.tmp_size;
      size = length-encrypt s.client.table (drop 4 tmp) s.buffer len ∙ room.size;
    };
    client = refl;
  },
)
  where
    len : ℕ
    len = length w - 4

    tmp : List ℕ
    tmp = copy (length w) s.tmp_buffer 0 w 0

    size : len ≡ length (drop 4 w)
    size = omega (arith, length-drop {0} 4 w)

    buffer : List ℕ
    buffer = encrypt s.client.table (drop 4 tmp) s.buffer len

    t : Loop
    t = record (count_send s) { tmp_buffer = tmp; buffer = buffer }

    long : (n : ℕ) → 4 ≤ n → ltb n 4 ≡ false
    long n h = ground arith

    below : (n k : ℕ) → k < n → ltb k n ≡ true
    below n k h = ground arith

    input : (k : ℕ) → k < length (drop 4 w) → byte_at (drop 4 tmp) k ≡ byte_at (drop 4 w) k
    input k h =
        get_or-drop 4 tmp k 0
        ∙ byte_at-fill w s.tmp_buffer (4 + k) (rw room.tmp_size fits) (omega (arith, size))
        ∙ sym (get_or-drop 4 w k 0)

    code :
        (k : ℕ)
        → k < length (drop 4 w)
        → byte_at buffer k ≡ byte_at s.client.table.encode (byte_at (drop 4 w) k)
    code k h =
        byte_at-encrypt s.client.table (drop 4 tmp) s.buffer len k (rw (room.size) (omega arith))
        ∙ rw (below len k (omega (arith, size))) (ap (byte_at s.client.table.encode) (input k h))

    whole : take len buffer ≡ encode_all s.client.table (drop 4 w)
    whole =
        ap (λ n. take n buffer) size
        ∙ take-coded (λ b. byte_at s.client.table.encode b) (drop 4 w) buffer
            (rw (length-encrypt s.client.table (drop 4 tmp) s.buffer len, room.size)
              (omega (arith, size)))
            code

pub sock_part-Keeps :
    (s : Loop) (d : List ℕ)
    → HasBuffers s
    → length d + 4 ≤ buffer_len
    → (t : Loop) × (Osx.sock_part s (some d)
        ≡ go_on t (write_tun (Osx.header ++ decode_all s.client.table d) ∷ []))
      × Keeps s t
unfolding Osx.sock_part
sock_part-Keeps s d room fits = (
  t,
  rw (fit (length d) fits) (
      ap (λ q. go_on t (write_tun q ∷ []))
        (ap (λ n. take n (Osx.header ++ plain)) (four_more (length d))
          ∙ ap (λ q. Osx.header ++ q)
              (take-decoded s.client.table d s.tmp_buffer (drop 4 s.buffer)
                (rw room.tmp_size (omega arith))
                (rw (length-drop {0} 4 s.buffer, room.size) (omega arith))))),
  record {
    room = record {
      tmp_size = length-copy (length d) s.tmp_buffer 0 d 0 ∙ room.tmp_size;
      size = omega (
        arith,
        length-decrypt s.client.table (copy (length d) s.tmp_buffer 0 d 0) (drop 4 s.buffer)
            (length d),
        length-drop {0} 4 s.buffer,
        room.size,
      );
    };
    client = refl;
  },
)
  where
    plain : List ℕ
    plain = decrypt s.client.table (copy (length d) s.tmp_buffer 0 d 0) (drop 4 s.buffer) (length d)

    t : Loop
    t = record (count_recv s) {
      tmp_buffer = copy (length d) s.tmp_buffer 0 d 0;
      buffer = Osx.header ++ plain;
    }

    four_more : (n : ℕ) → n + 4 ≡ suc (suc (suc (suc n)))
    four_more n = omega arith

    fit : (n : ℕ) → n + 4 ≤ buffer_len → ltb buffer_len (n + 4) ≡ false
    fit n h = ground arith
