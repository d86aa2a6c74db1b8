-- ===== src/Crypt/Cipher.antt =====
-- `Encrypt` and `Decrypt` on buffers.
use s_vpn.Common.{
  ℕ, zero, suc, ◌+◌, ◌≤◌, ◌<◌, ◌≡◌, refl, ◌∙◌, arith, List, length, byte_at, set, take, IsBytes,
  get_or-set, get_or-take, length-take, get_or_ext, length-set, if◌then◌else◌, ltb, leb, ◌&&◌,
}
use s_vpn.Crypt.{CodeTable, substitute, encrypt, decrypt}
use s_vpn.Crypt.Table.{IsCodeTable}

byte_at-substitute :
    (code : List ℕ) (left i : ℕ) (input output : List ℕ) (k : ℕ)
    → i + left ≤ length output
    → byte_at (substitute code left i input output) k
      ≡ (if leb i k && ltb k (i + left) then byte_at code (byte_at input k) else byte_at output k)
unfolding substitute
byte_at-substitute code zero i input output k h = ground arith
byte_at-substitute code (suc left) i input output k h =
    let v = byte_at code (byte_at input i) in
    ground (
      arith,
      length-set output i v,
      byte_at-substitute code left (i + 1) input (set output i v) k,
      get_or-set output i k v 0,
    )

length-substitute :
    (code : List ℕ) (left i : ℕ) (input output : List ℕ)
    → length (substitute code left i input output) ≡ length output
unfolding substitute
length-substitute code zero i input output = refl
length-substitute code (suc left) i input output =
    length-substitute code left (i + 1) input _ ∙ length-set output i _

module _ (ct : CodeTable) (input output : List ℕ) (len : ℕ) where
  pub length-encrypt : length (encrypt ct input output len) ≡ length output
  unfolding encrypt
  length-encrypt = length-substitute ct.encode len 0 input output

  pub length-decrypt : length (decrypt ct input output len) ≡ length output
  unfolding decrypt
  length-decrypt = length-substitute ct.decode len 0 input output

  -- The first `len` bytes are the codes of the input's, and the rest of the buffer is as it was.
  pub byte_at-encrypt :
      (k : ℕ)
      → len ≤ length output
      → byte_at (encrypt ct input output len) k
        ≡ (if ltb k len then byte_at ct.encode (byte_at input k) else byte_at output k)
  unfolding encrypt
  byte_at-encrypt k h = ground (arith, byte_at-substitute ct.encode len 0 input output k)

  pub byte_at-decrypt :
      (k : ℕ)
      → len ≤ length output
      → byte_at (decrypt ct input output len) k
        ≡ (if ltb k len then byte_at ct.decode (byte_at input k) else byte_at output k)
  unfolding decrypt
  byte_at-decrypt k h = ground (arith, byte_at-substitute ct.decode len 0 input output k)

pub take_ext :
    (len : ℕ) (xs ys : List ℕ)
    → len ≤ length xs
    → len ≤ length ys
    → ((k : ℕ) → k < len → byte_at xs k ≡ byte_at ys k)
    → take len xs ≡ take len ys
take_ext len xs ys hx hy h =
    get_or_ext 0 _ _ (omega (arith, length-take {0} len xs, length-take {0} len ys))
      λ k. ground (arith, get_or-take len xs k 0, get_or-take len ys k 0, h k)

module _ (ct : CodeTable) (good : IsCodeTable ct) (input : List ℕ) (len : ℕ) where
  -- With inverse tables, the first `len` bytes that `Decrypt` gives for what `Encrypt` made of
  -- `len` bytes of the input are those of the input, if the three arrays have `len` places.
  pub decrypt-encrypt :
      (output output' : List ℕ)
      → IsBytes input
      → len ≤ length input
      → len ≤ length output
      → len ≤ length output'
      → take len (decrypt ct (encrypt ct input output len) output' len) ≡ take len input
  decrypt-encrypt output output' hb hi ho ho' =
      take_ext len _ input (rw length-decrypt ho') hi λ k hk. ground (
        arith,
        byte_at-decrypt ct (encrypt ct input output len) output' len k,
        byte_at-encrypt ct input output len k,
        good.decode_encode (byte_at input k),
        hb k,
      )

  -- The same with `Decrypt` first and `Encrypt` second.
  encrypt-decrypt :
      (output output' : List ℕ)
      → IsBytes input
      → len ≤ length input
      → len ≤ length output
      → len ≤ length output'
      → take len (encrypt ct (decrypt ct input output len) output' len) ≡ take len input
  encrypt-decrypt output output' hb hi ho ho' =
      take_ext len _ input (rw length-encrypt ho') hi λ k hk. ground (
        arith,
        byte_at-encrypt ct (decrypt ct input output len) output' len k,
        byte_at-decrypt ct input output len k,
        good.encode_decode (byte_at input k),
        hb k,
      )
