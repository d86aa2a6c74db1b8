-- ===== src/Md5/Blocks.antt =====
-- The blocks of a message in `memcpy` and in the loop of `MD5Update`.
use s_vpn.Common.{
  ℕ, zero, suc, ◌+◌, ◌-◌, ◌*◌, ◌^◌, ◌≤◌, ◌<◌, ◌≡◌, refl, sym, ◌∙◌, ap, ap₂, arith, List, length,
  byte_at, set, drop, get_or-set, get_or-take_lt, get_or-drop, length-drop, length-take, get_or_ext,
  length-set, get_or-out, u32, if◌then◌else◌, ltb, leb, ◌&&◌, true, dec_lt,
}
use s_vpn.Md5.{copy, block, update_loop}
use s_vpn.Md5.Transform.{transform}
use s_vpn.Md5.Reference.{absorb}

pub byte_at-copy :
    (n : ℕ) (dst : List ℕ) (d : ℕ) (src : List ℕ) (s k : ℕ)
    → d + n ≤ length dst
    → byte_at (copy n dst d src s) k
      ≡ (if leb d k && ltb k (d + n) then byte_at src (s + (k - d)) else byte_at dst k)
unfolding copy
byte_at-copy zero dst d src s k h = ground arith
byte_at-copy (suc n) dst d src s k h = ground (
  arith,
  byte_at-copy n (set dst d (byte_at src s)) (d + 1) src (s + 1) k,
  length-set dst d (byte_at src s),
  get_or-set dst d k (byte_at src s) 0,
)

pub length-copy :
    (n : ℕ) (dst : List ℕ) (d : ℕ) (src : List ℕ) (s : ℕ) → length (copy n dst d src s) ≡ length dst
unfolding copy
length-copy zero dst d src s = refl
length-copy (suc n) dst d src s = length-copy n _ (d + 1) src (s + 1) ∙ length-set dst d _

pub length-block : (i : ℕ) (xs : List ℕ) → i + 64 ≤ length xs → length (block i xs) ≡ 64
unfolding block
length-block i xs h = omega (arith, length-take {0} 64 (drop i xs), length-drop {0} i xs)

pub byte_at-block :
    (i : ℕ) (xs : List ℕ) (k : ℕ) → k < 64 → byte_at (block i xs) k ≡ byte_at xs (i + k)
unfolding block
byte_at-block i xs k h = get_or-take_lt 64 (drop i xs) k 0 h ∙ get_or-drop i xs k 0

-- An array of 64 bytes is a block if its bytes are.
pub eq-block :
    (b : List ℕ) (i : ℕ) (xs : List ℕ)
    → length b ≡ 64
    → i + 64 ≤ length xs
    → ((k : ℕ) → k < 64 → byte_at b k ≡ byte_at xs (i + k))
    → b ≡ block i xs
eq-block b i xs lb h same = get_or_ext 0 b (block i xs) (lb ∙ sym (length-block i xs h)) λ k.
    elim (dec_lt k 64) [
      | yes p ↦ same k p ∙ sym (byte_at-block i xs k p)
      | no p ↦ ground (arith, get_or-out b k 0, get_or-out (block i xs) k 0, length-block i xs h)
    ]

pub absorb-add :
    (a b pos : ℕ) (state m : List ℕ)
    → absorb (a + b) pos state m ≡ absorb b (pos + a * 64) (absorb a pos state m) m
unfolding absorb
absorb-add zero b pos state m = ap₂ (λ n p. absorb n p state m) none_first here
  where
    none_first : 0 + b ≡ b
    none_first = omega arith

    here : pos ≡ pos + 0 * 64
    here = omega arith
absorb-add (suc a) b pos state m =
    ap (λ n. absorb n pos state m) (shift)
    ∙ absorb-add a b (pos + 64) (transform state (block pos m)) m
    ∙ ap (λ p. absorb b p (absorb a (pos + 64) (transform state (block pos m)) m) m) move
  where
    shift : suc a + b ≡ suc (a + b)
    shift = omega arith

    move : pos + 64 + a * 64 ≡ pos + suc a * 64
    move = omega arith

-- Only the blocks that are absorbed matter.
pub absorb-prefix :
    (q pos : ℕ) (state xs ys : List ℕ)
    → pos + q * 64 ≤ length xs
    → pos + q * 64 ≤ length ys
    → ((k : ℕ) → k < length xs → byte_at ys k ≡ byte_at xs k)
    → absorb q pos state xs ≡ absorb q pos state ys
unfolding absorb
absorb-prefix zero pos state xs ys hx hy same = refl
absorb-prefix (suc q) pos state xs ys hx hy same =
    ap (λ b. absorb q (pos + 64) (transform state b) xs) blocks
    ∙ absorb-prefix q (pos + 64) (transform state (block pos ys)) xs ys (omega arith) (omega arith)
        same
  where
    blocks : block pos xs ≡ block pos ys
    blocks =
        eq-block (block pos xs) pos ys (length-block pos xs (omega arith)) (omega arith)
          λ k h. byte_at-block pos xs k h ∙ sym (same (pos + k) (omega arith))

-- The loop of `MD5Update` ends by its test after `q` rounds, with less than a block left.
pub update_loop_lem :
    (q fuel i n r : ℕ) (input state m : List ℕ) (l : ℕ)
    → q < fuel
    → i + q * 64 + r ≡ n
    → r < 64
    → n + 64 < 2 ^ 32
    → n ≤ length input
    → l + n ≤ length m
    → ((k : ℕ) → k < n → byte_at m (l + k) ≡ byte_at input k)
    → update_loop fuel i n input state ≡ record { i = i + q * 64; state = absorb q (l + i) state m }
unfolding update_loop absorb
update_loop_lem q zero i n r input state m l hq e hr hn hi hm same = absurd (omega arith)
update_loop_lem zero (suc fuel) i n r input state m l hq e hr hn hi hm same = ground arith
update_loop_lem (suc q) (suc fuel) i n r input state m l hq e hr hn hi hm same =
    rw (small, goes_on)
      (update_loop_lem q fuel (i + 64) n r input _ m l (omega arith) (omega arith) hr hn hi hm same
        ∙ ap₂ (λ j s. record { i = j; state = s }) (omega arith) rest)
  where
    small : u32 (i + 64) ≡ i + 64
    small = omega arith

    goes_on : leb (i + 64) n ≡ true
    goes_on = ground arith

    first : block i input ≡ block (l + i) m
    first =
        eq-block (block i input) (l + i) m (length-block i input (omega arith)) (omega arith) λ k h.
          byte_at-block i input k h
          ∙ sym (same (i + k) (omega arith))
          ∙ ap (byte_at m) (omega arith)

    rest :
        absorb q (l + (i + 64)) (transform state (block i input)) m
        ≡ absorb q (l + i + 64) (transform state (block (l + i) m)) m
    rest = ap₂ (λ p b. absorb q p (transform state b) m) (omega arith) first
