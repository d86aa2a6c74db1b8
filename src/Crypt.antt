-- ===== src/Crypt.antt =====
-- src/lib/crypt.c
use s_vpn.Common.{
  ℕ, zero, suc, ◌+◌, ◌*◌, ◌/◌, ◌^◌, List, byte_at, set, take, u8, ◌==◌, if◌then◌else◌,
}
pub mod Permutation
pub mod Table
pub mod Cipher
pub mod Codes

-- The only first byte of an IPv4 header without options.
abbrev pub ip_magic_header : ℕ
ip_magic_header = 0x45

abbrev pub prime_for_gen : ℕ
prime_for_gen = 47

pub record CodeTable : Type 0 where
  pub encode : List ℕ
  pub decode : List ℕ

-- `for (i = 0; i < 256; i++) ct->encode[i] = (unsigned char)i;`, with `left` rounds to go.
unfoldable pub fill_identity : ℕ → ℕ → List ℕ → List ℕ
fill_identity zero i enc = enc
fill_identity (suc left) i enc = fill_identity left (i + 1) (set enc i (u8 i))

-- The loop over `j`, which multiplies the digest by 47.
unfoldable pub stir : ℕ → ℕ → List ℕ → List ℕ
stir zero j md = md
stir (suc left) j md =
    let k = byte_at md j * prime_for_gen in
    let md' = set md j (u8 k) in
    stir left (j + 1) (set md' (j + 1) (u8 (byte_at md' (j + 1) + k / 2 ^ 8)))

-- `tmp = e[a]; e[a] = e[b]; e[b] = tmp;`
unfoldable pub swap : List ℕ → ℕ → ℕ → List ℕ
swap xs a b = let tmp = byte_at xs a in set (set xs a (byte_at xs b)) b tmp

-- The loop over `i` that shuffles the table.
unfoldable pub shuffle : ℕ → ℕ → List ℕ → List ℕ → List ℕ
shuffle zero i md enc = enc
shuffle (suc left) i md enc =
    let md' = stir 15 0 md in shuffle left (i + 1) md' (swap enc (byte_at md' 15) i)

-- The search for the code that is the identity; it ends at 256 if there is none.
unfoldable pub find_code : ℕ → ℕ → ℕ → List ℕ → ℕ
find_code zero i identity enc = i
find_code (suc left) i identity enc =
    let rest = find_code left (i + 1) identity enc in if byte_at enc i == identity then i else rest

-- `for (i = 0; i < 256; i++) ct->decode[ct->encode[i]] = (unsigned char)i;`
unfoldable pub gen_decode : ℕ → ℕ → List ℕ → List ℕ → List ℕ
gen_decode zero i enc dec = dec
gen_decode (suc left) i enc dec = gen_decode left (i + 1) enc (set dec (byte_at enc i) (u8 i))

-- The table as the two first loops leave it.
unfoldable pub shuffled : List ℕ → List ℕ → List ℕ
shuffled enc passmd5 = shuffle 256 0 (take 16 passmd5) (fill_identity 256 0 enc)

-- The swap that gives the header's first byte the identity for its code.
unfoldable pub fix_identity : List ℕ → ℕ → List ℕ
fix_identity enc identity = swap enc ip_magic_header (find_code 256 0 identity enc)

unfoldable pub build_table : CodeTable → List ℕ → ℕ → CodeTable
unfolding shuffled fix_identity
build_table ct passmd5 identity =
    let enc = fix_identity (shuffled ct.encode passmd5) identity in
    record { encode = enc; decode = gen_decode 256 0 enc ct.decode }

-- The loop that `Encrypt` and `Decrypt` share: `uoutput[i] = code[uinput[i]]`.
unfoldable pub substitute : List ℕ → ℕ → ℕ → List ℕ → List ℕ → List ℕ
substitute code zero i input output = output
substitute code (suc left) i input output =
    substitute code left (i + 1) input (set output i (byte_at code (byte_at input i)))

unfoldable pub encrypt : CodeTable → List ℕ → List ℕ → ℕ → List ℕ
unfolding substitute
encrypt ct input output len = substitute ct.encode len 0 input output

unfoldable pub decrypt : CodeTable → List ℕ → List ℕ → ℕ → List ℕ
unfolding substitute
decrypt ct input output len = substitute ct.decode len 0 input output
