-- ===== src/Old/TableLaws.antt =====
-- The tables with a timestamp: inverse, and the same on both sides.
use s_vpn.Common.{
  ℕ, zero, suc, ◌+◌, ◌-◌, ◌*◌, ◌/◌, ◌^◌, ◌≤◌, ◌<◌, ◌≡◌, refl, sym, ◌∙◌, ap, ap₂, arith, List,
  length, byte_at, set, take, IsBytes, get_or-set, length-append, length-take, length-set, u8, ltb,
  leb, ◌&&◌, true,
}
use s_vpn.Crypt.{CodeTable, fill_identity, stir, swap}
use s_vpn.Crypt.Permutation.{
  IsPermutation, stir-IsBytes, swap-IsPermutation, fill_identity-IsPermutation,
}
use s_vpn.Crypt.Table.{
  IsCodeTable, IsAllocated, decode_unique, gen_decode-inverse, inverse_tables, length-gen_decode,
  fill_identity-overwrites,
}
use s_vpn.Md5.{Md5Ctx, md5_fast, copy}
use s_vpn.Md5.Blocks.{byte_at-copy, length-copy}
use s_vpn.Md5.Reference.{le_bytes, md5_reference}
use s_vpn.Md5.Digest.{length-le_bytes, md5_fast-eq-reference, md5_reference-IsBytes}
use s_vpn.Old.Table.{shuffle_timed, timed_digest_input, build_timed_table}

-- The stack's memory and the caller's arrays.
pub record HasSpace (stack : Md5Ctx) (md : List ℕ) (ct : CodeTable) : Type 0 where
  pub context : length stack.buffer ≡ 64
  pub md_size : length md ≡ 17
  pub md_bytes : IsBytes md
  pub table : IsAllocated ct

-- Equal but for the last byte.
abbrev Agree : List ℕ → List ℕ → Type 0
Agree md md' = (k : ℕ) → k < 16 → byte_at md k ≡ byte_at md' k

length-stir : (left j : ℕ) (md : List ℕ) → length (stir left j md) ≡ length md
unfolding stir
length-stir zero j md = refl
length-stir (suc left) j md =
    length-stir left (j + 1) _ ∙ length-set _ (j + 1) _ ∙ length-set md j _

set-Agree :
    (md md' : List ℕ) (i v v' : ℕ)
    → length md ≡ 17
    → length md' ≡ 17
    → (i < 16 → v ≡ v')
    → Agree md md'
    → Agree (set md i v) (set md' i v')
set-Agree md md' i v v' l l' e same k h =
    ground (arith, get_or-set md i k v 0, get_or-set md' i k v' 0, same k h)

stir-Agree :
    (left j : ℕ) (md md' : List ℕ)
    → length md ≡ 17
    → length md' ≡ 17
    → j + left ≡ 16
    → Agree md md'
    → Agree (stir left j md) (stir left j md')
unfolding stir
stir-Agree zero j md md' l l' e same = same
stir-Agree (suc left) j md md' l l' e same =
    stir-Agree left (j + 1) _ _ (length-set _ (j + 1) _ ∙ length-set md j _ ∙ l)
      (length-set _ (j + 1) _ ∙ length-set md' j _ ∙ l') (omega arith)
      (set-Agree _ _ (j + 1) _ _ (length-set md j _ ∙ l) (length-set md' j _ ∙ l')
        (λ h. ap₂ (λ a k. u8 (a + k * 47 / 2 ^ 8)) (stirred (j + 1) h) first) stirred)
  where
    first : byte_at md j ≡ byte_at md' j
    first = same j (omega arith)

    stirred : Agree (set md j (u8 (byte_at md j * 47))) (set md' j (u8 (byte_at md' j * 47)))
    stirred = set-Agree md md' j _ _ l l' (λ h. ap (λ k. u8 (k * 47)) first) same

shuffle_timed-same :
    (left i : ℕ) (md md' enc : List ℕ)
    → length md ≡ 17
    → length md' ≡ 17
    → Agree md md'
    → shuffle_timed left i md enc ≡ shuffle_timed left i md' enc
unfolding shuffle_timed
shuffle_timed-same zero i md md' enc l l' same = refl
shuffle_timed-same (suc left) i md md' enc l l' same =
    let stirred = stir-Agree 16 0 md md' l l' refl same in
    shuffle_timed-same left (i + 1) (stir 16 0 md) (stir 16 0 md') _ (length-stir 16 0 md ∙ l)
      (length-stir 16 0 md' ∙ l') stirred
    ∙ ap (λ b. shuffle_timed left (i + 1) (stir 16 0 md') (swap enc b i)) (stirred 15 (omega arith))

shuffle_timed-IsPermutation :
    (left i : ℕ) (md enc : List ℕ)
    → i + left ≤ 256
    → IsBytes md
    → IsPermutation enc
    → IsPermutation (shuffle_timed left i md enc)
unfolding shuffle_timed
shuffle_timed-IsPermutation zero i md enc h hb p = p
shuffle_timed-IsPermutation (suc left) i md enc h hb p =
    let hb' : IsBytes (stir 16 0 md) = stir-IsBytes 16 0 md hb in
    shuffle_timed-IsPermutation left (i + 1) (stir 16 0 md) _ (omega arith) hb'
      (swap-IsPermutation (byte_at (stir 16 0 md) 15) i (hb' 15) (omega arith) p)

input_length :
    (passmd5 : List ℕ) (timestamp : ℕ)
    → length passmd5 ≡ 16
    → length (timed_digest_input passmd5 timestamp) ≡ 24
input_length passmd5 timestamp l = omega (
  arith,
  length-append (take 16 passmd5) (le_bytes 8 timestamp),
  length-take {0} 16 passmd5,
  length-le_bytes 8 timestamp,
)

digest_lem :
    (stack : Md5Ctx) (passmd5 : List ℕ) (timestamp : ℕ)
    → length stack.buffer ≡ 64
    → length passmd5 ≡ 16
    → md5_fast stack (timed_digest_input passmd5 timestamp) 24
      ≡ md5_reference (take 24 (timed_digest_input passmd5 timestamp))
digest_lem stack passmd5 timestamp room l =
    md5_fast-eq-reference stack (timed_digest_input passmd5 timestamp) 24 room
      (rw (input_length passmd5 timestamp l) (omega arith)) (omega arith)

-- The array `md` once `MD5Fast` has filled it.
filled :
    (md digest : List ℕ) (k : ℕ)
    → length md ≡ 17
    → k < 16
    → byte_at (copy 16 md 0 digest 0) k ≡ byte_at digest k
filled md digest k l h =
    byte_at-copy 16 md 0 digest 0 k (rw l (omega arith)) ∙ rw inside (ap (byte_at digest) start)
  where
    inside : (leb 0 k && ltb k (0 + 16)) ≡ true
    inside = ground arith

    start : 0 + (k - 0) ≡ k
    start = omega arith

filled-IsBytes :
    (md digest : List ℕ)
    → length md ≡ 17
    → IsBytes md
    → IsBytes digest
    → IsBytes (copy 16 md 0 digest 0)
filled-IsBytes md digest l h hd k =
    ground (arith, byte_at-copy 16 md 0 digest 0 k (rw l (omega arith)), h k, hd (0 + (k - 0)))

-- Over a caller's struct with both arrays and a stack with its arrays, the older `BuildTable` too
-- makes inverse tables from a digest of 16 bytes and any timestamp.
pub build_timed_table-IsCodeTable :
    (stack : Md5Ctx) (md : List ℕ) (ct : CodeTable) (passmd5 : List ℕ) (timestamp : ℕ)
    → HasSpace stack md ct
    → length passmd5 ≡ 16
    → IsCodeTable (build_timed_table stack md ct passmd5 timestamp)
unfolding build_timed_table
build_timed_table-IsCodeTable stack md ct passmd5 timestamp space l =
    inverse_tables _ _ permutation (length-gen_decode 256 0 _ ct.decode ∙ space.table.decode_size) (
      gen_decode-inverse 256 0 _ ct.decode permutation refl space.table.decode_size
        (λ j h. absurd (omega arith)))
  where
    digest_bytes : IsBytes (md5_fast stack (timed_digest_input passmd5 timestamp) 24)
    digest_bytes = rw (digest_lem stack passmd5 timestamp space.context l) (md5_reference-IsBytes _)

    permutation : IsPermutation (
        shuffle_timed 256 0
          (copy 16 md 0 (md5_fast stack (timed_digest_input passmd5 timestamp) 24) 0)
          (fill_identity 256 0 ct.encode))
    permutation =
        shuffle_timed-IsPermutation 256 0 _ _ (omega arith)
          (filled-IsBytes md _ space.md_size space.md_bytes digest_bytes)
          (fill_identity-IsPermutation ct.encode space.table.encode_size)

-- From one digest of 16 bytes and one timestamp the older `BuildTable` makes one table, whatever
-- the struct and the stack held before: the byte `md[16]`, which it reads without a value, does not
-- matter.
pub build_timed_table-same :
    (stack stack' : Md5Ctx) (md md' : List ℕ) (ct ct' : CodeTable) (passmd5 : List ℕ)
    (timestamp : ℕ)
    → HasSpace stack md ct
    → HasSpace stack' md' ct'
    → length passmd5 ≡ 16
    → build_timed_table stack md ct passmd5 timestamp
      ≡ build_timed_table stack' md' ct' passmd5 timestamp
build_timed_table-same stack stack' md md' ct ct' passmd5 timestamp s s' l =
    λ i. record { encode = encodes i; decode = decodes i }
  where
    t : CodeTable
    t = build_timed_table stack md ct passmd5 timestamp

    t' : CodeTable
    t' = build_timed_table stack' md' ct' passmd5 timestamp

    digest : List ℕ
    digest = md5_fast stack (timed_digest_input passmd5 timestamp) 24

    digest' : List ℕ
    digest' = md5_fast stack' (timed_digest_input passmd5 timestamp) 24

    digests : digest ≡ digest'
    digests =
        digest_lem stack passmd5 timestamp s.context l
        ∙ sym (digest_lem stack' passmd5 timestamp s'.context l)

    agree : Agree (copy 16 md 0 digest 0) (copy 16 md' 0 digest' 0)
    agree k h =
        filled md digest k s.md_size h
        ∙ ap (λ d. byte_at d k) digests
        ∙ sym (filled md' digest' k s'.md_size h)

    encodes : t.encode ≡ t'.encode
    encodes =
        unfold build_timed_table in
        ap (shuffle_timed 256 0 (copy 16 md 0 digest 0))
          (fill_identity-overwrites ct.encode ct'.encode s.table.encode_size s'.table.encode_size)
        ∙ shuffle_timed-same 256 0 _ _ _ (length-copy 16 md 0 digest 0 ∙ s.md_size)
            (length-copy 16 md' 0 digest' 0 ∙ s'.md_size) agree

    good : IsCodeTable t
    good = build_timed_table-IsCodeTable stack md ct passmd5 timestamp s l

    good' : IsCodeTable t'
    good' = build_timed_table-IsCodeTable stack' md' ct' passmd5 timestamp s' l

    decodes : t.decode ≡ t'.decode
    decodes =
        decode_unique t.encode t.decode t'.decode good.permutation good.decode_length
          good'.decode_length good.decode_encode (rw encodes good'.decode_encode)
