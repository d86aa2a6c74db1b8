-- ===== src/Traffic/Coded.antt =====
-- What a loop has in its buffer for what it has read: the codes of its bytes.
use s_vpn.Common.{ℕ, ◌≤◌, ◌<◌, ◌≡◌, ◌∙◌, ap, arith, List, map, length, byte_at, take, ltb, true}
use s_vpn.Crypt.{CodeTable, encrypt, decrypt}
use s_vpn.Crypt.Cipher.{byte_at-encrypt, byte_at-decrypt, length-encrypt, length-decrypt}
use s_vpn.Crypt.Codes.{take-coded}
use s_vpn.Md5.{copy}
use s_vpn.Traffic.Datagram.{byte_at-fill}

below : (k n : ℕ) → k < n → ltb k n ≡ true
below k n h = ground arith

module _ (ct : CodeTable) (d tmp buffer : List ℕ) (fits_tmp : length d ≤ length tmp)
    (fits : length d ≤ length buffer) where
  pub byte_at-decoded :
      (k : ℕ)
      → k < length d
      → byte_at (decrypt ct (copy (length d) tmp 0 d 0) buffer (length d)) k
        ≡ byte_at ct.decode (byte_at d k)
  byte_at-decoded k h =
      byte_at-decrypt ct _ buffer (length d) k fits
      ∙ rw (below k (length d) h) (ap (byte_at ct.decode) (byte_at-fill d tmp k fits_tmp h))

  byte_at-encoded :
      (k : ℕ)
      → k < length d
      → byte_at (encrypt ct (copy (length d) tmp 0 d 0) buffer (length d)) k
        ≡ byte_at ct.encode (byte_at d k)
  byte_at-encoded k h =
      byte_at-encrypt ct _ buffer (length d) k fits
      ∙ rw (below k (length d) h) (ap (byte_at ct.encode) (byte_at-fill d tmp k fits_tmp h))

  pub take-decoded :
      take (length d) (decrypt ct (copy (length d) tmp 0 d 0) buffer (length d))
      ≡ map (λ b. byte_at ct.decode b) d
  take-decoded = take-coded (λ b. byte_at ct.decode b) d _ (rw length-decrypt fits) byte_at-decoded

  pub take-encoded :
      take (length d) (encrypt ct (copy (length d) tmp 0 d 0) buffer (length d))
      ≡ map (λ b. byte_at ct.encode b) d
  take-encoded = take-coded (λ b. byte_at ct.encode b) d _ (rw length-encrypt fits) byte_at-encoded
