-- ===== src/Old/Table.antt =====
-- `BuildTable` of old-code/libs/crypt.c, which mixes a timestamp into the password's digest.
use s_vpn.Common.{ℕ, zero, suc, ◌+◌, List, ◌++◌, byte_at, take}
use s_vpn.Crypt.{CodeTable, fill_identity, stir, swap, gen_decode}
use s_vpn.Md5.{Md5Ctx, md5_fast, copy}
use s_vpn.Md5.Reference.{le_bytes}

-- The loop over `i` that shuffles the table; `md` has 17 bytes here, and each round stirs 16.
unfoldable pub shuffle_timed : ℕ → ℕ → List ℕ → List ℕ → List ℕ
shuffle_timed zero i md enc = enc
shuffle_timed (suc left) i md enc =
    let md' = stir 16 0 md in shuffle_timed left (i + 1) md' (swap enc (byte_at md' 15) i)

-- `buf`; the timestamp is given as an unsigned number.
abbrev pub timed_digest_input : List ℕ → ℕ → List ℕ
timed_digest_input passmd5 timestamp = take 16 passmd5 ++ le_bytes 8 timestamp

-- `BuildTable` over what the stack holds: the context of `MD5Fast` and the array `md`.
unfoldable pub build_timed_table : Md5Ctx → List ℕ → CodeTable → List ℕ → ℕ → CodeTable
unfolding shuffle_timed
build_timed_table stack md ct passmd5 timestamp =
    let digest = md5_fast stack (timed_digest_input passmd5 timestamp) 24 in
    let enc = shuffle_timed 256 0 (copy 16 md 0 digest 0) (fill_identity 256 0 ct.encode) in
    record { encode = enc; decode = gen_decode 256 0 enc ct.decode }
