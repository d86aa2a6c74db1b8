-- ===== src/Tests/CryptRuns.antt =====
-- The tables of a user, and packets through them.
use s_vpn.Common.{
  ℕ, ◌≡◌, refl, arith, List, [], ◌∷◌, byte_at, take, replicate, IsBytes, are_bytes-IsBytes,
}
use s_vpn.Crypt.{
  CodeTable, build_table, fill_identity, stir, swap, shuffle, find_code, gen_decode,
  ip_magic_header, encrypt, decrypt,
}
use s_vpn.Crypt.Cipher.{decrypt-encrypt}
use s_vpn.Crypt.Table.{IsCodeTable, IsAllocated, build_table-IsCodeTable, build_table-overwrites}

abbrev pub memory : CodeTable
memory = record { encode = replicate 256 0; decode = replicate 256 0 }

abbrev pub digest : List ℕ
digest =
    0x0c ∷ 0xc1 ∷ 0x75 ∷ 0xb9 ∷ 0xc0 ∷ 0xf1 ∷ 0xb6 ∷ 0xa8 ∷ 0x31 ∷ 0xc3 ∷ 0x99 ∷ 0xe2 ∷ 0x69 ∷ 0x77
    ∷ 0x26 ∷ 0x61 ∷ []

header_code : byte_at (build_table memory digest 6).encode ip_magic_header ≡ 6
unfolding build_table fill_identity stir swap shuffle find_code gen_decode
header_code = refl

pub digest-IsBytes : IsBytes digest
digest-IsBytes = are_bytes-IsBytes digest refl

pub memory-IsAllocated : IsAllocated memory
memory-IsAllocated = record { encode_size = refl; decode_size = refl }

build_table-IsCodeTable_example :
    IsCodeTable (build_table memory digest 6)
    × (byte_at (build_table memory digest 6).encode ip_magic_header ≡ 6)
build_table-IsCodeTable_example =
    build_table-IsCodeTable memory digest 6 memory-IsAllocated digest-IsBytes (omega arith)

-- Memory that `malloc` left with other contents.
abbrev dirty : CodeTable
dirty = record { encode = replicate 256 7; decode = replicate 256 170 }

build_table-overwrites_example : build_table memory digest 6 ≡ build_table dirty digest 6
build_table-overwrites_example =
    build_table-overwrites memory dirty digest 6 memory-IsAllocated
      (record { encode_size = refl; decode_size = refl }) digest-IsBytes (omega arith)

abbrev packet : List ℕ
packet = 0x45 ∷ 0 ∷ 0 ∷ 20 ∷ []

decrypt-encrypt_example :
    let ct = build_table memory digest 6 in
    take 3 (decrypt ct (encrypt ct packet (replicate 8 0) 3) (replicate 8 1) 3) ≡ 0x45 ∷ 0 ∷ 0 ∷ []
decrypt-encrypt_example =
    decrypt-encrypt (build_table memory digest 6) build_table-IsCodeTable_example.0 packet 3
      (replicate 8 0) (replicate 8 1) (are_bytes-IsBytes packet refl) (omega arith) (omega arith)
      (omega arith)
