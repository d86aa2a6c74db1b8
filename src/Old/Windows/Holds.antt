-- ===== src/Old/Windows/Holds.antt =====
-- A buffer of the Windows client that holds a packet, through the calls that copy and code it.
use s_vpn.Common.{
  ℕ, ◌≤◌, ◌<◌, ◌≡◌, refl, sym, ◌∙◌, ap, arith, List, length, byte_at, take, get_or-take_lt,
  length-take, take-length, ltb, true,
}
use s_vpn.Crypt.{CodeTable, encrypt, decrypt}
use s_vpn.Crypt.Cipher.{byte_at-encrypt, byte_at-decrypt, length-encrypt, length-decrypt, take_ext}
use s_vpn.Crypt.Codes.{byte_at-map, length-map, take-coded, encode_all, decode_all}
use s_vpn.Md5.{copy}
use s_vpn.Md5.Blocks.{byte_at-copy, length-copy}
use s_vpn.Old.Windows.Channel.{package_buffer_size}
use s_vpn.Traffic.Datagram.{byte_at-fill}

-- The first `n` bytes of the array are the packet.
pub record Holds (memory : List ℕ) (n : ℕ) (p : List ℕ) : Type 0 where
  pub size : length memory ≡ package_buffer_size
  pub count : n ≡ length p
  pub fits : length p ≤ package_buffer_size
  pub same : (k : ℕ) → k < length p → byte_at memory k ≡ byte_at p k

pub Holds-filled :
    (memory p : List ℕ)
    → length memory ≡ package_buffer_size
    → length p ≤ package_buffer_size
    → Holds (copy (length p) memory 0 p 0) (length p) p
Holds-filled memory p size fits = record {
  size = length-copy (length p) memory 0 p 0 ∙ size;
  count = refl;
  fits = fits;
  same = λ k h. byte_at-fill p memory k (rw size fits) h;
}

-- An array holds its own first bytes.
pub Holds-own :
    (memory : List ℕ) (n : ℕ)
    → length memory ≡ package_buffer_size
    → n ≤ package_buffer_size
    → Holds memory n (take n memory)
Holds-own memory n size fits =
    let count = length-take {0} n memory in
    record {
      size = size;
      count = omega (arith, count, size);
      fits = omega (arith, count, size);
      same = λ k h. sym (get_or-take_lt n memory k 0 (omega (arith, count, size)));
    }

below : (k n : ℕ) → k < n → ltb k n ≡ true
below k n h = ground arith

module _ (memory p buf : List ℕ) (n : ℕ) (held : Holds memory n p)
    (size : length buf ≡ package_buffer_size) where
  fits_buf : n ≤ length buf
  fits_buf = omega (arith, size, held.count, held.fits)

  pub Holds-copied : Holds (copy n buf 0 memory 0) n p
  Holds-copied = record {
    size = length-copy n buf 0 memory 0 ∙ size;
    count = held.count;
    fits = held.fits;
    same = λ k h.
        byte_at-copy n buf 0 memory 0 k (omega (arith, fits_buf))
        ∙ ground (arith, held.same k h, held.count);
  }

  inside : (ct : CodeTable) (k : ℕ) → k < length (decode_all ct p) → k < length p
  inside ct k h = omega (arith, length-map (λ b. byte_at ct.decode b) p)

  pub Holds-decoded : (ct : CodeTable) → Holds (decrypt ct memory buf n) n (decode_all ct p)
  Holds-decoded ct = record {
    size = length-decrypt ct memory buf n ∙ size;
    count = held.count ∙ sym (length-map (λ b. byte_at ct.decode b) p);
    fits = omega (arith, length-map (λ b. byte_at ct.decode b) p, held.fits);
    same = λ k h.
        let h' = inside ct k h in
        byte_at-decrypt ct memory buf n k fits_buf
        ∙ rw (below k n (omega (arith, held.count))) (
            ap (byte_at ct.decode) (held.same k h')
            ∙ sym (byte_at-map (λ b. byte_at ct.decode b) p k h'));
  }

pub take-Holds : (memory p : List ℕ) (n : ℕ) → Holds memory n p → take n memory ≡ p
take-Holds memory p n held =
    ap (λ m. take m memory) held.count
    ∙ take_ext (length p) memory p (omega (arith, held.size, held.fits)) (omega arith) held.same
    ∙ take-length p

pub take-sent :
    (ct : CodeTable) (buf enbuf p : List ℕ) (n : ℕ)
    → Holds buf n p
    → length enbuf ≡ package_buffer_size
    → take n (encrypt ct buf enbuf n) ≡ encode_all ct p
take-sent ct buf enbuf p n held size =
    ap (λ m. take m (encrypt ct buf enbuf n)) held.count
    ∙ take-coded (λ b. byte_at ct.encode b) p (encrypt ct buf enbuf n)
        (rw length-encrypt (omega (arith, held.fits, size)))
        λ k h.
          byte_at-encrypt ct buf enbuf n k (omega (arith, held.count, held.fits, size))
          ∙ rw (below k n (omega (arith, held.count))) (ap (byte_at ct.encode) (held.same k h))
