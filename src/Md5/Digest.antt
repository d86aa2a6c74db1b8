-- ===== src/Md5/Digest.antt =====
-- The digest of `MD5Final` and of `MD5Fast` is that of RFC 1321.
use s_vpn.Common.{
  ℕ, zero, suc, ◌+◌, ◌-◌, ◌*◌, ◌/◌, ◌%◌, ◌^◌, ◌≤◌, ◌<◌, ◌≡◌, refl, ◌∙◌, ap, ap₂, arith, IsBytes,
  List, [], ◌∷◌, ◌++◌, length, take, replicate, take-length, if◌then◌else◌, ltb,
}
use s_vpn.Md5.{Md5Ctx, padding, md5_init, md5_update, md5_final, md5_fast}
use s_vpn.Md5.Coding.{md5_encode, encode_loop}
use s_vpn.Md5.Transform.{transform}
use s_vpn.Md5.Reference.{
  absorb, initial_state, le_bytes, pad_message, words_to_bytes, md5_reference,
}
use s_vpn.Md5.Update.{Absorbed, md5_update-Absorbed}

md5_init-Absorbed : (ctx : Md5Ctx) → length ctx.buffer ≡ 64 → Absorbed (md5_init ctx) []
unfolding md5_init absorb
md5_init-Absorbed ctx size = record {
  buffer_size = size;
  digested = refl;
  pending = λ k h. elim h [ ];
  count_low = omega arith;
  bits = omega arith;
}

take-replicate : (z n a : ℕ) → z ≤ n → take z (replicate n a) ≡ replicate z a
take-replicate zero n a h = refl
take-replicate (suc z) zero a h = absurd (omega arith)
take-replicate (suc z) (suc n) a h = ap (λ xs. a ∷ xs) (take-replicate z n a (omega arith))

-- `md5_final`'s `padlen`, one byte of 0x80 and the zeros.
padding_lem :
    (r : ℕ)
    → r < 64
    → take (if ltb r 56 then 56 - r else 120 - r) padding ≡ 0x80 ∷ replicate ((119 - r) % 64) 0
padding_lem r h =
    ap (λ n. take n padding) pad ∙ ap (λ t. 0x80 ∷ t) (take-replicate _ 63 0 (omega arith))
  where
    pad : (if ltb r 56 then 56 - r else 120 - r) ≡ suc ((119 - r) % 64)
    pad = ground arith

length_bytes :
    (low high w : ℕ)
    → low < 2 ^ 32
    → low + 2 ^ 32 * high ≡ w % 2 ^ 64
    → md5_encode (replicate 8 0) (low ∷ high ∷ []) 8 ≡ le_bytes 8 w
unfolding md5_encode encode_loop
length_bytes low high w h e = ground arith

digest_bytes :
    (a b c d : ℕ)
    → md5_encode (replicate 16 0) (a ∷ b ∷ c ∷ d ∷ []) 16 ≡ words_to_bytes (a ∷ b ∷ c ∷ d ∷ [])
unfolding md5_encode encode_loop words_to_bytes
digest_bytes a b c d = ground arith

-- The four words of a state.
abbrev IsState : List ℕ → Type 0
IsState s = (a b c d : ℕ) × (s ≡ a ∷ b ∷ c ∷ d ∷ [])

absorb-IsState : (n pos : ℕ) (state m : List ℕ) → IsState state → IsState (absorb n pos state m)
unfolding absorb transform
absorb-IsState zero pos state m h = h
absorb-IsState (suc n) pos state m h = absorb-IsState n (pos + 64) _ m (_, _, _, _, refl)

initial-IsState : IsState initial_state
initial-IsState = (0x67452301, 0xEFCDAB89, 0x98BADCFE, 0x10325476, refl)

digest_of_state : (s : List ℕ) → IsState s → md5_encode (replicate 16 0) s 16 ≡ words_to_bytes s
digest_of_state s (a, b, c, d, e) = rw e (digest_bytes a b c d)

pub length-le_bytes : (n w : ℕ) → length (le_bytes n w) ≡ n
length-le_bytes zero w = refl
length-le_bytes (suc n) w = ap suc (length-le_bytes n (w / 256))

module _ (ctx : Md5Ctx) (m : List ℕ) (prior : Absorbed ctx m) where
  abbrev index : ℕ
  index = length m % 64

  abbrev padlen : ℕ
  padlen = if ltb index 56 then 56 - index else 120 - index

  abbrev bits : List ℕ
  bits = md5_encode (replicate 8 0) (ctx.count0 ∷ ctx.count1 ∷ []) 8

  padlen_bounds : (1 ≤ padlen) × (padlen ≤ 64)
  padlen_bounds = ground arith

  bits_lem : bits ≡ le_bytes 8 (length m * 8)
  bits_lem = length_bytes ctx.count0 ctx.count1 (length m * 8) prior.count_low prior.bits

  once : Absorbed (md5_update ctx padding padlen) (m ++ take padlen padding)
  once =
      md5_update-Absorbed ctx m padding padlen prior padlen_bounds.1 (omega (arith, padlen_bounds))

  length_bits : length bits ≡ 8
  length_bits = ap length bits_lem ∙ length-le_bytes 8 (length m * 8)

  twice :
      Absorbed
        (md5_update (md5_update ctx padding padlen) bits 8)
        ((m ++ take padlen padding) ++ take 8 bits)
  twice =
      md5_update-Absorbed (md5_update ctx padding padlen) (m ++ take padlen padding) bits 8 once
        (omega (arith, length_bits)) (omega arith)

  padded_lem : (m ++ take padlen padding) ++ take 8 bits ≡ pad_message m
  unfolding pad_message
  padded_lem = ap₂ (λ a b. (m ++ a) ++ b) (padding_lem index (omega arith)) (ap (take 8) bits_lem)

  padded : Absorbed (md5_update (md5_update ctx padding padlen) bits 8) (pad_message m)
  padded = rw padded_lem at twice

  -- `MD5Final` gives the digest of what the context has absorbed.
  pub md5_final-eq-reference : md5_final ctx ≡ md5_reference m
  unfolding md5_final md5_reference
  md5_final-eq-reference =
      rw (index_lem, padded.digested)
        (digest_of_state _
          (absorb-IsState (length (pad_message m) / 64) 0 _ (pad_message m) initial-IsState))
    where
      index_lem : ctx.count0 / 8 % 64 ≡ index
      index_lem = omega (arith, prior.bits, prior.count_low)

-- `MD5Fast` gives RFC 1321's digest of the first `len` bytes of its input, if the input has that
-- many, `len + 64` does not reach 2 ^ 32, and the context's buffer has its 64 places.
pub md5_fast-eq-reference :
    (md5 : Md5Ctx) (input : List ℕ) (len : ℕ)
    → length md5.buffer ≡ 64
    → len ≤ length input
    → len + 64 < 2 ^ 32
    → md5_fast md5 input len ≡ md5_reference (take len input)
unfolding md5_fast
md5_fast-eq-reference md5 input len size fits small =
    md5_final-eq-reference (md5_update (md5_init md5) input len) (take len input)
      (md5_update-Absorbed (md5_init md5) [] input len (md5_init-Absorbed md5 size) fits small)

-- Two calls of `MD5Update` on two pieces, each with less than 2 ^ 32 - 64 bytes, between
-- `MD5Init` and `MD5Final` give RFC 1321's digest of the two pieces joined.
pub md5-streaming :
    (md5 : Md5Ctx) (xs ys : List ℕ)
    → length md5.buffer ≡ 64
    → length xs + 64 < 2 ^ 32
    → length ys + 64 < 2 ^ 32
    → md5_final (md5_update (md5_update (md5_init md5) xs (length xs)) ys (length ys))
      ≡ md5_reference (xs ++ ys)
md5-streaming md5 xs ys size hx hy =
    rw (take-length xs, take-length ys) at
      (md5_final-eq-reference _ _ (
        md5_update-Absorbed _ _ ys (length ys)
          (md5_update-Absorbed _ [] xs (length xs) (md5_init-Absorbed md5 size) (omega arith) hx)
          (omega arith) hy))

le_bytes-IsBytes : (n w : ℕ) → IsBytes (le_bytes n w)
le_bytes-IsBytes zero w i = omega arith
le_bytes-IsBytes (suc n) w zero = omega arith
le_bytes-IsBytes (suc n) w (suc i) = le_bytes-IsBytes n (w / 256) i

append-IsBytes : (xs ys : List ℕ) → IsBytes xs → IsBytes ys → IsBytes (xs ++ ys)
append-IsBytes [] ys hx hy i = hy i
append-IsBytes (x ∷ xs) ys hx hy zero = hx 0
append-IsBytes (x ∷ xs) ys hx hy (suc i) = append-IsBytes xs ys (λ j. hx (suc j)) hy i

words_to_bytes-IsBytes : (ws : List ℕ) → IsBytes (words_to_bytes ws)
unfolding words_to_bytes
words_to_bytes-IsBytes [] i = omega arith
words_to_bytes-IsBytes (w ∷ ws) i =
    append-IsBytes (le_bytes 4 w) (words_to_bytes ws) (le_bytes-IsBytes 4 w)
      (words_to_bytes-IsBytes ws) i

pub md5_reference-IsBytes : (m : List ℕ) → IsBytes (md5_reference m)
unfolding md5_reference
md5_reference-IsBytes m = words_to_bytes-IsBytes _
