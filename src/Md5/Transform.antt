-- ===== src/Md5/Transform.antt =====
-- MD5Transform of src/lib/md5.c, with the macros of include/md5.h.
use s_vpn.Common.{
  ℕ, ◌+◌, ◌-◌, ◌*◌, ◌/◌, ◌^◌, bit_and, bit_or, bit_xor, List, [], ◌∷◌, u32, replicate,
}
use s_vpn.Md5.Coding.{word_at, md5_decode}

-- `~x` on an unsigned int.
abbrev pub complement : ℕ → ℕ
complement x = 2 ^ 32 - 1 - x

unfoldable pub f : ℕ → ℕ → ℕ → ℕ
f x y z = bit_or (bit_and x y) (bit_and (complement x) z)

unfoldable pub g : ℕ → ℕ → ℕ → ℕ
g x y z = bit_or (bit_and x z) (bit_and y (complement z))

unfoldable pub h : ℕ → ℕ → ℕ → ℕ
h x y z = bit_xor (bit_xor x y) z

unfoldable pub i : ℕ → ℕ → ℕ → ℕ
i x y z = bit_xor y (bit_or x (complement z))

unfoldable pub rotate_left : ℕ → ℕ → ℕ
rotate_left x n = bit_or (u32 (x * 2 ^ n)) (x / 2 ^ (32 - n))

-- What `FF`, `GG`, `HH` and `II` assign to their first argument.
unfoldable pub ff : ℕ → ℕ → ℕ → ℕ → ℕ → ℕ → ℕ → ℕ
ff a b c d x s ac = let a' = u32 (a + (f b c d + x + ac)) in u32 (rotate_left a' s + b)

unfoldable pub gg : ℕ → ℕ → ℕ → ℕ → ℕ → ℕ → ℕ → ℕ
gg a b c d x s ac = let a' = u32 (a + (g b c d + x + ac)) in u32 (rotate_left a' s + b)

unfoldable pub hh : ℕ → ℕ → ℕ → ℕ → ℕ → ℕ → ℕ → ℕ
hh a b c d x s ac = let a' = u32 (a + (h b c d + x + ac)) in u32 (rotate_left a' s + b)

unfoldable pub ii : ℕ → ℕ → ℕ → ℕ → ℕ → ℕ → ℕ → ℕ
ii a b c d x s ac = let a' = u32 (a + (i b c d + x + ac)) in u32 (rotate_left a' s + b)

-- The local variables `a`, `b`, `c`, `d`.
pub record Quad : Type 0 where
  pub a : ℕ
  pub b : ℕ
  pub c : ℕ
  pub d : ℕ

unfoldable pub round1 : List ℕ → Quad → Quad
round1 x q =
    let record { a = a; b = b; c = c; d = d } = q in
    let a = ff a b c d (word_at x 0) 7 0xd76aa478 in
    let d = ff d a b c (word_at x 1) 12 0xe8c7b756 in
    let c = ff c d a b (word_at x 2) 17 0x242070db in
    let b = ff b c d a (word_at x 3) 22 0xc1bdceee in
    let a = ff a b c d (word_at x 4) 7 0xf57c0faf in
    let d = ff d a b c (word_at x 5) 12 0x4787c62a in
    let c = ff c d a b (word_at x 6) 17 0xa8304613 in
    let b = ff b c d a (word_at x 7) 22 0xfd469501 in
    let a = ff a b c d (word_at x 8) 7 0x698098d8 in
    let d = ff d a b c (word_at x 9) 12 0x8b44f7af in
    let c = ff c d a b (word_at x 10) 17 0xffff5bb1 in
    let b = ff b c d a (word_at x 11) 22 0x895cd7be in
    let a = ff a b c d (word_at x 12) 7 0x6b901122 in
    let d = ff d a b c (word_at x 13) 12 0xfd987193 in
    let c = ff c d a b (word_at x 14) 17 0xa679438e in
    let b = ff b c d a (word_at x 15) 22 0x49b40821 in record { a = a; b = b; c = c; d = d }

unfoldable pub round2 : List ℕ → Quad → Quad
round2 x q =
    let record { a = a; b = b; c = c; d = d } = q in
    let a = gg a b c d (word_at x 1) 5 0xf61e2562 in
    let d = gg d a b c (word_at x 6) 9 0xc040b340 in
    let c = gg c d a b (word_at x 11) 14 0x265e5a51 in
    let b = gg b c d a (word_at x 0) 20 0xe9b6c7aa in
    let a = gg a b c d (word_at x 5) 5 0xd62f105d in
    let d = gg d a b c (word_at x 10) 9 0x2441453 in
    let c = gg c d a b (word_at x 15) 14 0xd8a1e681 in
    let b = gg b c d a (word_at x 4) 20 0xe7d3fbc8 in
    let a = gg a b c d (word_at x 9) 5 0x21e1cde6 in
    let d = gg d a b c (word_at x 14) 9 0xc33707d6 in
    let c = gg c d a b (word_at x 3) 14 0xf4d50d87 in
    let b = gg b c d a (word_at x 8) 20 0x455a14ed in
    let a = gg a b c d (word_at x 13) 5 0xa9e3e905 in
    let d = gg d a b c (word_at x 2) 9 0xfcefa3f8 in
    let c = gg c d a b (word_at x 7) 14 0x676f02d9 in
    let b = gg b c d a (word_at x 12) 20 0x8d2a4c8a in record { a = a; b = b; c = c; d = d }

unfoldable pub round3 : List ℕ → Quad → Quad
round3 x q =
    let record { a = a; b = b; c = c; d = d } = q in
    let a = hh a b c d (word_at x 5) 4 0xfffa3942 in
    let d = hh d a b c (word_at x 8) 11 0x8771f681 in
    let c = hh c d a b (word_at x 11) 16 0x6d9d6122 in
    let b = hh b c d a (word_at x 14) 23 0xfde5380c in
    let a = hh a b c d (word_at x 1) 4 0xa4beea44 in
    let d = hh d a b c (word_at x 4) 11 0x4bdecfa9 in
    let c = hh c d a b (word_at x 7) 16 0xf6bb4b60 in
    let b = hh b c d a (word_at x 10) 23 0xbebfbc70 in
    let a = hh a b c d (word_at x 13) 4 0x289b7ec6 in
    let d = hh d a b c (word_at x 0) 11 0xeaa127fa in
    let c = hh c d a b (word_at x 3) 16 0xd4ef3085 in
    let b = hh b c d a (word_at x 6) 23 0x4881d05 in
    let a = hh a b c d (word_at x 9) 4 0xd9d4d039 in
    let d = hh d a b c (word_at x 12) 11 0xe6db99e5 in
    let c = hh c d a b (word_at x 15) 16 0x1fa27cf8 in
    let b = hh b c d a (word_at x 2) 23 0xc4ac5665 in record { a = a; b = b; c = c; d = d }

unfoldable pub round4 : List ℕ → Quad → Quad
round4 x q =
    let record { a = a; b = b; c = c; d = d } = q in
    let a = ii a b c d (word_at x 0) 6 0xf4292244 in
    let d = ii d a b c (word_at x 7) 10 0x432aff97 in
    let c = ii c d a b (word_at x 14) 15 0xab9423a7 in
    let b = ii b c d a (word_at x 5) 21 0xfc93a039 in
    let a = ii a b c d (word_at x 12) 6 0x655b59c3 in
    let d = ii d a b c (word_at x 3) 10 0x8f0ccc92 in
    let c = ii c d a b (word_at x 10) 15 0xffeff47d in
    let b = ii b c d a (word_at x 1) 21 0x85845dd1 in
    let a = ii a b c d (word_at x 8) 6 0x6fa87e4f in
    let d = ii d a b c (word_at x 15) 10 0xfe2ce6e0 in
    let c = ii c d a b (word_at x 6) 15 0xa3014314 in
    let b = ii b c d a (word_at x 13) 21 0x4e0811a1 in
    let a = ii a b c d (word_at x 4) 6 0xf7537e82 in
    let d = ii d a b c (word_at x 11) 10 0xbd3af235 in
    let c = ii c d a b (word_at x 2) 15 0x2ad7d2bb in
    let b = ii b c d a (word_at x 9) 21 0xeb86d391 in record { a = a; b = b; c = c; d = d }

unfoldable pub transform : List ℕ → List ℕ → List ℕ
transform state block =
    let x = md5_decode (replicate 64 0) block 64 in
    let q : Quad = record {
      a = word_at state 0;
      b = word_at state 1;
      c = word_at state 2;
      d = word_at state 3;
    } in
    let record { a = a; b = b; c = c; d = d } = round4 x (round3 x (round2 x (round1 x q))) in
    u32 (word_at state 0 + a)
    ∷ u32 (word_at state 1 + b)
    ∷ u32 (word_at state 2 + c)
    ∷ u32 (word_at state 3 + d)
    ∷ []
