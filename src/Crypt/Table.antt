-- ===== src/Crypt/Table.antt =====
-- What `BuildTable` promises: two inverse tables, with the identity at the header's first byte.
use s_vpn.Common.{
  ℕ, zero, suc, ◌+◌, ◌≤◌, ◌<◌, ◌≡◌, refl, sym, ◌∙◌, ap, arith, List, length, byte_at, set, take,
  IsBytes, get_or-set, get_or-take, get_or_ext, length-set, get_or-out, u8, dec_lt,
}
use s_vpn.Crypt.{
  CodeTable, ip_magic_header, fill_identity, shuffle, shuffled, fix_identity, find_code, gen_decode,
  build_table,
}
use s_vpn.Crypt.Permutation.{
  IsPermutation, swap-IsPermutation, fill_identity-IsPermutation, byte_at-fill_identity,
  length-fill_identity, shuffle-IsPermutation, find_code_lem, byte_at-swap,
}

-- `encode` is a permutation of the bytes and `decode` is its inverse.
pub record IsCodeTable (ct : CodeTable) : Type 0 where
  pub permutation : IsPermutation ct.encode
  pub decode_length : length ct.decode ≡ 256
  pub decode_encode : (b : ℕ) → b < 256 → byte_at ct.decode (byte_at ct.encode b) ≡ b
  pub encode_decode : (c : ℕ) → c < 256 → byte_at ct.encode (byte_at ct.decode c) ≡ c
  pub decode_in_range : IsBytes ct.decode

-- The memory that the caller hands over has the two arrays of the struct.
pub record IsAllocated (ct : CodeTable) : Type 0 where
  pub encode_size : length ct.encode ≡ 256
  pub decode_size : length ct.decode ≡ 256

take-IsBytes : (n : ℕ) (xs : List ℕ) → IsBytes xs → IsBytes (take n xs)
take-IsBytes n xs h i = ground (arith, get_or-take n xs i 0, h i)

shuffled-IsPermutation :
    (enc md : List ℕ) → length enc ≡ 256 → IsBytes md → IsPermutation (shuffled enc md)
unfolding shuffled
shuffled-IsPermutation enc md e h =
    shuffle-IsPermutation 256 0 (take 16 md) _ (omega arith) (take-IsBytes 16 md h)
      (fill_identity-IsPermutation enc e)

-- In a permutation the search finds the identity before the end of the array.
pub find_code-IsPermutation :
    (enc : List ℕ) (v : ℕ)
    → IsPermutation enc
    → v < 256
    → (find_code 256 0 v enc < 256) × (byte_at enc (find_code 256 0 v enc) ≡ v)
find_code-IsPermutation enc v p h =
    let (k, hk, e) = p.onto v h in find_code_lem 256 0 v enc k (omega arith) (omega arith) e

fix_identity-IsPermutation :
    (enc : List ℕ) (v : ℕ)
    → IsPermutation enc
    → v < 256
    → IsPermutation (fix_identity enc v) × (byte_at (fix_identity enc v) ip_magic_header ≡ v)
unfolding fix_identity
fix_identity-IsPermutation enc v p h =
    let (bound, hit) = find_code-IsPermutation enc v p h in
    (
      swap-IsPermutation ip_magic_header (find_code 256 0 v enc) (omega arith) bound p,
      ground (
        arith,
        hit,
        byte_at-swap enc ip_magic_header (find_code 256 0 v enc) ip_magic_header
            (rw p.same_length (omega arith)) (rw p.same_length bound),
      ),
    )

pub length-gen_decode :
    (left i : ℕ) (enc dec : List ℕ) → length (gen_decode left i enc dec) ≡ length dec
unfolding gen_decode
length-gen_decode zero i enc dec = refl
length-gen_decode (suc left) i enc dec =
    length-gen_decode left (i + 1) enc _ ∙ length-set dec (byte_at enc i) (u8 i)

pub gen_decode-inverse :
    (left i : ℕ) (enc dec : List ℕ)
    → IsPermutation enc
    → i + left ≡ 256
    → length dec ≡ 256
    → ((j : ℕ) → j < i → byte_at dec (byte_at enc j) ≡ j)
    → (j : ℕ) → j < 256
    → byte_at (gen_decode left i enc dec) (byte_at enc j) ≡ j
unfolding gen_decode
gen_decode-inverse zero i enc dec p e l done j h = done j (omega arith)
gen_decode-inverse (suc left) i enc dec p e l done j h =
    gen_decode-inverse left (i + 1) enc _ p (omega arith)
      (length-set dec (byte_at enc i) (u8 i) ∙ l) extended j h
  where
    extended : (k : ℕ) → k < i + 1 → byte_at (set dec (byte_at enc i) (u8 i)) (byte_at enc k) ≡ k
    extended k before = ground (
      arith,
      get_or-set dec (byte_at enc i) (byte_at enc k) (u8 i) 0,
      p.injective i k,
      p.in_range i,
      done k,
    )

encode-IsPermutation :
    (ct : CodeTable) (md : List ℕ) (identity : ℕ)
    → IsAllocated ct
    → IsBytes md
    → identity < 256
    → IsPermutation (fix_identity (shuffled ct.encode md) identity)
encode-IsPermutation ct md identity a h v =
    (fix_identity-IsPermutation _ identity (shuffled-IsPermutation ct.encode md a.encode_size h)
      v).0

pub inverse_tables :
    (enc dec : List ℕ)
    → IsPermutation enc
    → length dec ≡ 256
    → ((b : ℕ) → b < 256 → byte_at dec (byte_at enc b) ≡ b)
    → IsCodeTable (record { encode = enc; decode = dec })
inverse_tables enc dec p l inv = record {
  permutation = p;
  decode_length = l;
  decode_encode = inv;
  encode_decode = λ c h. let (i, hi, e) = p.onto c h in rw (← e, inv i hi);
  decode_in_range = λ c. elim (dec_lt c 256) [
    | yes h ↦ let (i, hi, e) = p.onto c h in rw (← e, inv i hi) hi
    | no h ↦ beyond c (omega arith)
  ];
}
  where
    beyond : (c : ℕ) → 256 ≤ c → byte_at dec c < 256
    beyond c h = ground (arith, get_or-out dec c 0)

-- Over a struct with two arrays of 256 bytes, a digest of bytes and an identity below 256,
-- `BuildTable` makes `encode` a permutation of the bytes and `decode` its inverse on both sides,
-- and gives the byte 0x45 the identity for its code.
pub build_table-IsCodeTable :
    (ct : CodeTable) (md : List ℕ) (identity : ℕ)
    → IsAllocated ct
    → IsBytes md
    → identity < 256
    → IsCodeTable (build_table ct md identity)
      × (byte_at (build_table ct md identity).encode ip_magic_header ≡ identity)
unfolding build_table
build_table-IsCodeTable ct md identity a h v =
    let p = encode-IsPermutation ct md identity a h v in
    (
      inverse_tables _ _ p (length-gen_decode 256 0 _ ct.decode ∙ a.decode_size)
          (gen_decode-inverse 256 0 _ ct.decode p (omega arith) a.decode_size (λ j l. elim l [ ])),
      (fix_identity-IsPermutation _ identity (shuffled-IsPermutation ct.encode md a.encode_size h)
          v).1,
    )

pub fill_identity-overwrites :
    (xs ys : List ℕ)
    → length xs ≡ 256
    → length ys ≡ 256
    → fill_identity 256 0 xs ≡ fill_identity 256 0 ys
fill_identity-overwrites xs ys hx hy =
    get_or_ext 0 _ _
      (length-fill_identity 256 0 xs ∙ hx ∙ sym hy ∙ sym (length-fill_identity 256 0 ys))
      λ i. ground (
        arith,
        byte_at-fill_identity 256 0 xs i,
        byte_at-fill_identity 256 0 ys i,
        get_or-out xs i 0,
        get_or-out ys i 0,
      )

-- An array of 256 bytes that inverts `encode` is one array.
pub decode_unique :
    (enc d d' : List ℕ)
    → IsPermutation enc
    → length d ≡ 256
    → length d' ≡ 256
    → ((b : ℕ) → b < 256 → byte_at d (byte_at enc b) ≡ b)
    → ((b : ℕ) → b < 256 → byte_at d' (byte_at enc b) ≡ b)
    → d ≡ d'
decode_unique enc d d' p l l' inv inv' = get_or_ext 0 d d' (l ∙ sym l') same
  where
    same : (c : ℕ) → byte_at d c ≡ byte_at d' c
    same c = elim (dec_lt c 256) [
      | yes h ↦ let (i, hi, e) = p.onto c h in rw (← e, inv i hi, inv' i hi)
      | no h ↦ ground (arith, get_or-out d c 0, get_or-out d' c 0)
    ]

-- Under the same conditions the tables do not depend on what the two arrays held before.
pub build_table-overwrites :
    (ct ct' : CodeTable) (md : List ℕ) (identity : ℕ)
    → IsAllocated ct
    → IsAllocated ct'
    → IsBytes md
    → identity < 256
    → build_table ct md identity ≡ build_table ct' md identity
build_table-overwrites ct ct' md identity a a' h v =
    λ i. record { encode = encodes i; decode = decodes i }
  where
    t : CodeTable
    t = build_table ct md identity

    t' : CodeTable
    t' = build_table ct' md identity

    encodes : t.encode ≡ t'.encode
    encodes =
        unfold build_table shuffled in
        ap (λ e. fix_identity (shuffle 256 0 (take 16 md) e) identity)
          (fill_identity-overwrites ct.encode ct'.encode a.encode_size a'.encode_size)

    good : IsCodeTable t
    good = (build_table-IsCodeTable ct md identity a h v).0

    good' : IsCodeTable t'
    good' = (build_table-IsCodeTable ct' md identity a' h v).0

    decodes : t.decode ≡ t'.decode
    decodes =
        decode_unique t.encode t.decode t'.decode good.permutation good.decode_length
          good'.decode_length good.decode_encode (rw encodes good'.decode_encode)
