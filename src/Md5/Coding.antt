-- ===== src/Md5/Coding.antt =====
-- MD5Encode and MD5Decode of src/lib/md5.c: words to bytes and back, the low byte first.
use s_vpn.Common.{ℕ, zero, suc, ◌+◌, ◌*◌, ◌/◌, ◌%◌, ◌^◌, bit_or, List, get_or, byte_at, set}

abbrev pub word_at : List ℕ → ℕ → ℕ
word_at xs i = get_or xs i 0

-- `while (j < len)`, where `left` rounds are to go.
unfoldable pub encode_loop : ℕ → ℕ → ℕ → List ℕ → List ℕ → List ℕ
encode_loop zero i j input output = output
encode_loop (suc left) i j input output =
    let w = word_at input i in
    let output = set output j (w % 256) in
    let output = set output (j + 1) (w / 2 ^ 8 % 256) in
    let output = set output (j + 2) (w / 2 ^ 16 % 256) in
    let output = set output (j + 3) (w / 2 ^ 24 % 256) in
    encode_loop left (i + 1) (j + 4) input output

unfoldable pub md5_encode : List ℕ → List ℕ → ℕ → List ℕ
unfolding encode_loop
md5_encode output input len = encode_loop ((len + 3) / 4) 0 0 input output

unfoldable pub decode_loop : ℕ → ℕ → ℕ → List ℕ → List ℕ → List ℕ
decode_loop zero i j input output = output
decode_loop (suc left) i j input output =
    let w =
      bit_or
        (bit_or (bit_or (byte_at input j) (byte_at input (j + 1) * 2 ^ 8))
          (byte_at input (j + 2) * 2 ^ 16))
        (byte_at input (j + 3) * 2 ^ 24) in
    decode_loop left (i + 1) (j + 4) input (set output i w)

unfoldable pub md5_decode : List ℕ → List ℕ → ℕ → List ℕ
unfolding decode_loop
md5_decode output input len = decode_loop ((len + 3) / 4) 0 0 input output
