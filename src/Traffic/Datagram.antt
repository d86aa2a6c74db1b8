-- ===== src/Traffic/Datagram.antt =====
-- A packet through a cipher, a datagram, and a receiver's two buffers.
use s_vpn.Common.{
  ℕ, ◌+◌, ◌-◌, ◌≤◌, ◌<◌, ◌≡◌, ◌∙◌, ap, arith, List, length, byte_at, take, IsBytes, get_or-take_lt,
  length-take, take-length, ltb, leb, ◌&&◌, true,
}
use s_vpn.Crypt.{CodeTable, encrypt, decrypt}
use s_vpn.Crypt.Table.{IsCodeTable}
use s_vpn.Crypt.Cipher.{byte_at-encrypt, byte_at-decrypt, length-encrypt, length-decrypt, take_ext}
use s_vpn.Md5.{copy}
use s_vpn.Md5.Blocks.{byte_at-copy}

-- What `recvfrom` or `read` leaves in an array that it fills from the start.
pub byte_at-fill :
    (bytes tmp : List ℕ) (k : ℕ)
    → length bytes ≤ length tmp
    → k < length bytes
    → byte_at (copy (length bytes) tmp 0 bytes 0) k ≡ byte_at bytes k
byte_at-fill bytes tmp k fits h =
    byte_at-copy (length bytes) tmp 0 bytes 0 k (omega arith)
    ∙ rw (inside (length bytes) h) (ap (byte_at bytes) start)
  where
    inside : (n : ℕ) → k < n → (leb 0 k && ltb k (0 + n)) ≡ true
    inside n h = ground arith

    start : 0 + (k - 0) ≡ k
    start = omega arith

-- What the sender puts on the wire for the packet `p`.
abbrev pub wire : CodeTable → List ℕ → List ℕ → List ℕ → List ℕ
wire ct p tmp buffer = take (length p) (encrypt ct (copy (length p) tmp 0 p 0) buffer (length p))

-- What the receiver has in its buffer for the datagram `d`.
abbrev pub opened : CodeTable → List ℕ → List ℕ → List ℕ → List ℕ
opened ct d tmp buffer = decrypt ct (copy (length d) tmp 0 d 0) buffer (length d)

module _ (ct : CodeTable) (p tmp buffer : List ℕ) (fits_tmp : length p ≤ length tmp)
    (fits_buffer : length p ≤ length buffer) where
  pub length-wire : length (wire ct p tmp buffer) ≡ length p
  length-wire = omega (
    arith,
    length-take {0} (length p) (encrypt ct (copy (length p) tmp 0 p 0) buffer (length p)),
    length-encrypt ct (copy (length p) tmp 0 p 0) buffer (length p),
  )

  pub byte_at-wire :
      (k : ℕ) → k < length p → byte_at (wire ct p tmp buffer) k ≡ byte_at ct.encode (byte_at p k)
  byte_at-wire k h =
      get_or-take_lt (length p) _ k 0 h
      ∙ byte_at-encrypt ct (copy (length p) tmp 0 p 0) buffer (length p) k fits_buffer
      ∙ rw (below (length p) h) (ap (byte_at ct.encode) (byte_at-fill p tmp k fits_tmp h))
    where
      below : (n : ℕ) → k < n → ltb k n ≡ true
      below n h = ground arith

  -- The receiver with the same table has the packet at the start of its buffer.
  module _ (good : IsCodeTable ct) (bytes : IsBytes p) (tmp' buffer' : List ℕ)
      (fits_tmp' : length p ≤ length tmp') (fits_buffer' : length p ≤ length buffer') where
    pub byte_at-opened :
        (k : ℕ)
        → k < length p
        → byte_at (opened ct (wire ct p tmp buffer) tmp' buffer') k ≡ byte_at p k
    byte_at-opened k h =
        byte_at-decrypt ct _ buffer' (length (wire ct p tmp buffer)) k (rw length-wire fits_buffer')
        ∙ rw (below (length (wire ct p tmp buffer)) (rw length-wire h)) (
            ap (byte_at ct.decode) (
              byte_at-fill (wire ct p tmp buffer) tmp' k (rw length-wire fits_tmp')
                (rw length-wire h)
              ∙ byte_at-wire k h)
            ∙ good.decode_encode (byte_at p k) (bytes k))
      where
        below : (n : ℕ) → k < n → ltb k n ≡ true
        below n h = ground arith

    pub take-opened : take (length p) (opened ct (wire ct p tmp buffer) tmp' buffer') ≡ p
    take-opened =
        take_ext (length p) _ p (rw length-decrypt fits_buffer') (omega arith) byte_at-opened
        ∙ take-length p
