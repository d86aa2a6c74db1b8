-- ===== src/Crypt/Permutation.antt =====
-- `BuildTable` keeps `encode` a permutation of the bytes.
use s_vpn.Common.{
  ℕ, zero, suc, ◌+◌, ◌≤◌, ◌<◌, ◌≡◌, refl, ◌∙◌, arith, List, length, byte_at, set, IsBytes,
  get_or-set, length-set, get_or-out, u8, ◌==◌, ==_iff, if◌then◌else◌, Bool-cases, inl, inr, ltb,
  leb, ◌&&◌, false, dec_lt, ℕ_discrete,
}
use s_vpn.Crypt.{fill_identity, stir, swap, shuffle, find_code}

-- The array holds each byte exactly once.
pub record IsPermutation (xs : List ℕ) : Type 0 where
  pub same_length : length xs ≡ 256
  pub in_range : IsBytes xs
  pub injective : (i j : ℕ) → i < 256 → j < 256 → byte_at xs i ≡ byte_at xs j → i ≡ j
  pub onto : (v : ℕ) → v < 256 → (i : ℕ) × (i < 256) × (byte_at xs i ≡ v)

abbrev pub transpose : ℕ → ℕ → ℕ → ℕ
transpose a b k = if b == k then a else if a == k then b else k

pub byte_at-swap :
    (xs : List ℕ) (a b k : ℕ)
    → a < length xs
    → b < length xs
    → byte_at (swap xs a b) k ≡ byte_at xs (transpose a b k)
unfolding swap
byte_at-swap xs a b k p q = ground (
  arith,
  get_or-set (set xs a (byte_at xs b)) b k (byte_at xs a) 0,
  get_or-set xs a k (byte_at xs b) 0,
  length-set xs a (byte_at xs b),
)

length-swap : (xs : List ℕ) (a b : ℕ) → length (swap xs a b) ≡ length xs
unfolding swap
length-swap xs a b = length-set _ _ _ ∙ length-set _ _ _

pub swap-IsPermutation :
    {xs : List ℕ} (a b : ℕ) → a < 256 → b < 256 → IsPermutation xs → IsPermutation (swap xs a b)
swap-IsPermutation {xs} a b ha hb p = record {
  same_length = length-swap xs a b ∙ p.same_length;
  in_range = λ i. rw (at i) (p.in_range (transpose a b i));
  injective =
      λ i j hi hj e. ground (arith, p.injective (transpose a b i) (transpose a b j), at i, at j);
  onto = λ v hv.
      let (i, hi, e) = p.onto v hv in
      (transpose a b i, ground arith, rw (at (transpose a b i)) (rw (twice i) e));
}
  where
    at : (k : ℕ) → byte_at (swap xs a b) k ≡ byte_at xs (transpose a b k)
    at k = byte_at-swap xs a b k (rw p.same_length ha) (rw p.same_length hb)

    twice : (k : ℕ) → transpose a b (transpose a b k) ≡ k
    twice k = ground arith

pub byte_at-fill_identity :
    (left i : ℕ) (enc : List ℕ) (k : ℕ)
    → i + left ≤ length enc
    → byte_at (fill_identity left i enc) k
      ≡ (if leb i k && ltb k (i + left) then u8 k else byte_at enc k)
unfolding fill_identity
byte_at-fill_identity zero i enc k h = ground arith
byte_at-fill_identity (suc left) i enc k h = ground (
  arith,
  length-set enc i (u8 i),
  byte_at-fill_identity left (i + 1) (set enc i (u8 i)) k,
  get_or-set enc i k (u8 i) 0,
)

pub length-fill_identity :
    (left i : ℕ) (enc : List ℕ) → length (fill_identity left i enc) ≡ length enc
unfolding fill_identity
length-fill_identity zero i enc = refl
length-fill_identity (suc left) i enc =
    length-fill_identity left (i + 1) (set enc i (u8 i)) ∙ length-set enc i (u8 i)

pub fill_identity-IsPermutation :
    (enc : List ℕ) → length enc ≡ 256 → IsPermutation (fill_identity 256 0 enc)
fill_identity-IsPermutation enc e = record {
  same_length = length-fill_identity 256 0 enc ∙ e;
  in_range = λ i. elim (dec_lt i 256) [ yes h ↦ rw (at i h) h | no h ↦ outside i (omega arith) ];
  injective = λ i j hi hj q. omega (arith, at i hi, at j hj);
  onto = λ v hv. (v, hv, at v hv);
}
  where
    at : (k : ℕ) → k < 256 → byte_at (fill_identity 256 0 enc) k ≡ k
    at k h = ground (arith, byte_at-fill_identity 256 0 enc k)

    outside : (k : ℕ) → 256 ≤ k → byte_at (fill_identity 256 0 enc) k < 256
    outside k h =
        ground (arith, get_or-out (fill_identity 256 0 enc) k 0, length-fill_identity 256 0 enc)

set-IsBytes : (xs : List ℕ) (i v : ℕ) → IsBytes xs → v < 256 → IsBytes (set xs i v)
set-IsBytes xs i v h hv j = ground (arith, get_or-set xs i j v 0, h j)

pub stir-IsBytes : (left j : ℕ) (md : List ℕ) → IsBytes md → IsBytes (stir left j md)
unfolding stir
stir-IsBytes zero j md h = h
stir-IsBytes (suc left) j md h =
    stir-IsBytes left (j + 1) _
      (set-IsBytes _ (j + 1) _ (set-IsBytes md j _ h (omega arith)) (omega arith))

pub shuffle-IsPermutation :
    (left i : ℕ) (md enc : List ℕ)
    → i + left ≤ 256
    → IsBytes md
    → IsPermutation enc
    → IsPermutation (shuffle left i md enc)
unfolding shuffle
shuffle-IsPermutation zero i md enc h hb p = p
shuffle-IsPermutation (suc left) i md enc h hb p =
    let hb' : IsBytes (stir 15 0 md) = stir-IsBytes 15 0 md hb in
    shuffle-IsPermutation left (i + 1) (stir 15 0 md) _ (omega arith) hb'
      (swap-IsPermutation (byte_at (stir 15 0 md) 15) i (hb' 15) (omega arith) p)

-- If some code from `i` on is the identity, the search ends at one and does not run past the end.
pub find_code_lem :
    (left i v : ℕ) (enc : List ℕ) (k : ℕ)
    → i ≤ k
    → k < i + left
    → byte_at enc k ≡ v
    → (find_code left i v enc < i + left) × (byte_at enc (find_code left i v enc) ≡ v)
unfolding find_code
find_code_lem zero i v enc k h l e = absurd (omega arith)
find_code_lem (suc left) i v enc k h l e = elim (Bool-cases (byte_at enc i == v)) [
  | inl t ↦ rw t (omega arith, (==_iff _ v).0 t)
  | inr f ↦ rw f (
    omega (arith, (find_code_lem left (i + 1) v enc k (beyond f) (omega arith) e).0),
    (find_code_lem left (i + 1) v enc k (beyond f) (omega arith) e).1,
  )
]
  where
    differs : (byte_at enc i == v) ≡ false → byte_at enc i ≡ v → ⊥
    differs f q = ground arith

    beyond : (byte_at enc i == v) ≡ false → i + 1 ≤ k
    beyond f = elim (ℕ_discrete i k) [ yes q ↦ absurd (differs f (rw q e)) | no q ↦ omega arith ]
