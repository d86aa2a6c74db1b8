-- ===== src/Crypt/Codes.antt =====
-- The codes of a string of bytes, as the start of a buffer.
use s_vpn.Common.{
  ℕ, zero, suc, ◌≤◌, ◌<◌, ◌≡◌, refl, sym, ◌∙◌, ap, ap₂, arith, List, [], ◌∷◌, map, length, byte_at,
  take, IsBytes, take-length,
}
use s_vpn.Crypt.{CodeTable}
use s_vpn.Crypt.Table.{IsCodeTable}
use s_vpn.Crypt.Cipher.{take_ext}

pub byte_at-map :
    (f : ℕ → ℕ) (xs : List ℕ) (k : ℕ) → k < length xs → byte_at (map f xs) k ≡ f (byte_at xs k)
byte_at-map f [] k h = absurd (omega arith)
byte_at-map f (x ∷ xs) zero h = refl
byte_at-map f (x ∷ xs) (suc k) h = byte_at-map f xs k (omega arith)

pub length-map : (f : ℕ → ℕ) (xs : List ℕ) → length (map f xs) ≡ length xs
length-map f [] = refl
length-map f (x ∷ xs) = ap suc (length-map f xs)

-- A buffer that has the codes of the bytes at the start of another.
pub take-coded :
    (f : ℕ → ℕ) (d buffer : List ℕ)
    → length d ≤ length buffer
    → ((k : ℕ) → k < length d → byte_at buffer k ≡ f (byte_at d k))
    → take (length d) buffer ≡ map f d
take-coded f d buffer fits same =
    take_ext (length d) buffer (map f d) fits (rw length-map (omega arith))
      (λ k h. same k h ∙ sym (byte_at-map f d k h))
    ∙ ap (λ n. take n (map f d)) (sym (length-map f d))
    ∙ take-length (map f d)

-- The codes of a whole string.
module _ (ct : CodeTable) where
  abbrev pub encode_all : List ℕ → List ℕ
  encode_all p = map (λ b. byte_at ct.encode b) p

  abbrev pub decode_all : List ℕ → List ℕ
  decode_all d = map (λ b. byte_at ct.decode b) d

  -- The tables undo each other on strings of bytes.
  pub decode_all-encode_all :
      (p : List ℕ) → IsCodeTable ct → IsBytes p → decode_all (encode_all p) ≡ p
  decode_all-encode_all [] good bytes = refl
  decode_all-encode_all (b ∷ p) good bytes =
      ap₂ (λ x xs. x ∷ xs) (good.decode_encode b (bytes 0))
        (decode_all-encode_all p good λ k. bytes (suc k))
