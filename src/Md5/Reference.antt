-- ===== src/Md5/Reference.antt =====
-- RFC 1321's account of a digest, over the whole message: pad it, and absorb it block by block.
use s_vpn.Common.{ℕ, zero, suc, ◌+◌, ◌-◌, ◌*◌, ◌/◌, ◌%◌, List, [], ◌∷◌, ◌++◌, length, replicate}
use s_vpn.Md5.{block}
use s_vpn.Md5.Transform.{transform}

-- The state after `n` blocks, from position `pos` of the message on.
unfoldable pub absorb : ℕ → ℕ → List ℕ → List ℕ → List ℕ
absorb zero pos state message = state
absorb (suc n) pos state message = absorb n (pos + 64) (transform state (block pos message)) message

abbrev pub initial_state : List ℕ
initial_state = 0x67452301 ∷ 0xEFCDAB89 ∷ 0x98BADCFE ∷ 0x10325476 ∷ []

-- The `n` lowest bytes of a number, the lowest first.
abbrev pub le_bytes : ℕ → ℕ → List ℕ
le_bytes zero w = []
le_bytes (suc n) w = (w % 256) ∷ le_bytes n (w / 256)

-- A bit 1 and zeros up to a length of 56 modulo 64, then the length in bits modulo 2 ^ 64.
unfoldable pub pad_message : List ℕ → List ℕ
pad_message message =
    message
    ++ (0x80 ∷ replicate ((119 - length message % 64) % 64) 0)
    ++ le_bytes 8 (length message * 8)

unfoldable pub words_to_bytes : List ℕ → List ℕ
words_to_bytes [] = []
words_to_bytes (w ∷ ws) = le_bytes 4 w ++ words_to_bytes ws

unfoldable pub md5_reference : List ℕ → List ℕ
md5_reference message =
    let padded = pad_message message in
    words_to_bytes (absorb (length padded / 64) 0 initial_state padded)
