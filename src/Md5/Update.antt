-- ===== src/Md5/Update.antt =====
-- `MD5Update` absorbs its input, whatever the pieces in which the message comes.
use s_vpn.Common.{
  ℕ, suc, ◌+◌, ◌-◌, ◌*◌, ◌/◌, ◌%◌, ◌^◌, ◌≤◌, ◌<◌, ◌≡◌, sym, ◌∙◌, ap, ap₂, arith, List, ◌++◌, length,
  byte_at, take, get_or-take_lt, get_or-append, length-append, length-take, if◌then◌else◌,
  Bool-cases, inl, inr, ltb, leb, ◌&&◌, true, false, dec_lt,
}
use s_vpn.Md5.{Md5Ctx, copy, block, update_loop, absorb_blocks, keep_bytes, md5_update}
use s_vpn.Md5.Transform.{transform}
use s_vpn.Md5.Reference.{absorb, initial_state}
use s_vpn.Md5.Blocks.{
  byte_at-copy, length-copy, eq-block, length-block, absorb-add, absorb-prefix, update_loop_lem,
}

-- The context stands for the message `m`: its full blocks are in the state, the rest is in the
-- buffer, and the counters hold its length in bits.
pub record Absorbed (ctx : Md5Ctx) (m : List ℕ) : Type 0 where
  pub buffer_size : length ctx.buffer ≡ 64
  pub digested : ctx.state ≡ absorb (length m / 64) 0 initial_state m
  pub pending :
      (k : ℕ) → k < length m % 64 → byte_at ctx.buffer k ≡ byte_at m (length m / 64 * 64 + k)
  pub count_low : ctx.count0 < 2 ^ 32
  pub bits : ctx.count0 + 2 ^ 32 * ctx.count1 ≡ length m * 8 % 2 ^ 64

in_window : (k j : ℕ) → k < j → (leb 0 k && ltb k (0 + j)) ≡ true
in_window k j h = ground arith

-- One call of `MD5Update` on `n` bytes, after a message of `l` bytes.
module _ (ctx : Md5Ctx) (m input : List ℕ) (n : ℕ) (prior : Absorbed ctx m)
    (fits : n ≤ length input) (small : n + 64 < 2 ^ 32) where
  abbrev whole : List ℕ
  whole = m ++ take n input

  length-whole : length whole ≡ length m + n
  length-whole = omega (arith, length-append m (take n input), length-take {0} n input)

  whole_old : (k : ℕ) → k < length m → byte_at whole k ≡ byte_at m k
  whole_old k h = ground (arith, get_or-append m (take n input) k 0)

  whole_new : (k : ℕ) → k < n → byte_at whole (length m + k) ≡ byte_at input k
  whole_new k h =
      let later : ltb (length m + k) (length m) ≡ false = ground arith in
      let back : length m + k - length m ≡ k = omega arith in
      get_or-append m (take n input) (length m + k) 0
      ∙ rw (later, back) (get_or-take_lt n input k 0 h)

  index_lem : ctx.count0 / 8 % 64 ≡ length m % 64
  index_lem = omega (arith, prior.bits, prior.count_low)

  abbrev p : ℕ
  p = length m / 64

  abbrev r : ℕ
  r = length m % 64

  -- What the rest of `MD5Update` does to the state and the buffer.
  record Holds (rest : record { state : List ℕ; buffer : List ℕ }) : Type 0 where
    buffer_size : length rest.buffer ≡ 64
    digested : rest.state ≡ absorb (length whole / 64) 0 initial_state whole
    pending :
        (k : ℕ)
        → k < length whole % 64
        → byte_at rest.buffer k ≡ byte_at whole (length whole / 64 * 64 + k)

  -- The bytes that were pending and the first of the input are a block of the whole.
  filled :
      (j k : ℕ)
      → r + j ≤ 64
      → j ≤ n
      → k < r + j
      → byte_at (copy j ctx.buffer r input 0) k ≡ byte_at whole (p * 64 + k)
  filled j k hj hn h = elim (dec_lt k r) [
    | yes before ↦
        byte_at-copy j ctx.buffer r input 0 k (omega (arith, prior.buffer_size))
        ∙ rw (if_before before)
            (prior.pending k before ∙ sym (whole_old (p * 64 + k) (omega arith)))
    | no after ↦
        byte_at-copy j ctx.buffer r input 0 k (omega (arith, prior.buffer_size))
        ∙ rw (if_after after) (
            ap (byte_at input) from_start
            ∙ sym (whole_new (k - r) (omega arith))
            ∙ ap (byte_at whole) (omega arith))
  ]
    where
      from_start : 0 + (k - r) ≡ k - r
      from_start = omega arith

      if_before : k < r → (leb r k && ltb k (r + j)) ≡ false
      if_before b = ground arith

      if_after : ¬ (k < r) → (leb r k && ltb k (r + j)) ≡ true
      if_after a = ground arith

  first_block : 64 - r ≤ n → copy (64 - r) ctx.buffer r input 0 ≡ block (p * 64) whole
  first_block full =
      eq-block _ (p * 64) whole (length-copy (64 - r) ctx.buffer r input 0 ∙ prior.buffer_size)
        (omega (arith, length-whole)) λ k h. filled (64 - r) k (omega arith) full (omega arith)

  keep_bytes-Holds : n < 64 - r → Holds (keep_bytes ctx input n r)
  unfolding keep_bytes
  keep_bytes-Holds few = record {
    buffer_size = length-copy n ctx.buffer r input 0 ∙ prior.buffer_size;
    digested =
        prior.digested
        ∙ absorb-prefix p 0 initial_state m whole (omega arith) (omega (arith, length-whole))
            whole_old
        ∙ ap (λ q. absorb q 0 initial_state whole) (omega (arith, length-whole));
    pending = λ k h.
        filled n k (omega arith) (omega arith) (omega (arith, length-whole))
        ∙ ap (λ q. byte_at whole (q * 64 + k)) (omega (arith, length-whole));
  }

  -- The full blocks of the input after the first, and the bytes that are left.
  abbrev q : ℕ
  q = (n - (64 - r)) / 64

  abbrev s : ℕ
  s = (n - (64 - r)) % 64

  loop_lem :
      (state : List ℕ)
      → 64 - r ≤ n
      → update_loop (n / 64 + 1) (64 - r) n input state
        ≡ record { i = 64 - r + q * 64; state = absorb q (length m + (64 - r)) state whole }
  loop_lem state full =
      update_loop_lem q (n / 64 + 1) (64 - r) n s input state whole (length m) (omega arith)
        (omega arith) (omega arith) small fits (omega (arith, length-whole)) whole_new

  absorbed_state :
      64 - r ≤ n
      → absorb q (length m + (64 - r)) (transform ctx.state (block (p * 64) whole)) whole
        ≡ absorb (length whole / 64) 0 initial_state whole
  unfolding absorb
  absorbed_state full =
      ap₂ (λ t a. absorb q a (transform t (block (p * 64) whole)) whole) start next
      ∙ ap
          (λ b.
            absorb q (0 + p * 64 + 64) (transform (absorb p 0 initial_state whole) (block b whole))
              whole)
          origin
      ∙ sym (absorb-add p (suc q) 0 initial_state whole)
      ∙ ap (λ b. absorb b 0 initial_state whole) {x = p + suc q} {y = length whole / 64}
          (omega (arith, length-whole))
    where
      start : ctx.state ≡ absorb p 0 initial_state whole
      start =
          prior.digested
          ∙ absorb-prefix p 0 initial_state m whole (omega arith) (omega (arith, length-whole))
              whole_old

      origin : p * 64 ≡ 0 + p * 64
      origin = omega arith

      next : length m + (64 - r) ≡ 0 + p * 64 + 64
      next = omega arith

  tail_bytes :
      64 - r ≤ n
      → (buffer : List ℕ) → length buffer ≡ 64
      → (k : ℕ) → k < length whole % 64
      → byte_at (copy (n - (64 - r + q * 64)) buffer 0 input (64 - r + q * 64)) k
        ≡ byte_at whole (length whole / 64 * 64 + k)
  tail_bytes full buffer size k h =
      byte_at-copy (n - (64 - r + q * 64)) buffer 0 input (64 - r + q * 64) k (omega arith)
      ∙ rw inside (
          ap (byte_at input) from_start
          ∙ sym (whole_new (64 - r + q * 64 + k) (omega (arith, length-whole)))
          ∙ ap (byte_at whole) (omega (arith, length-whole)))
    where
      below : k < n - (64 - r + q * 64)
      below = omega (arith, length-whole)

      inside : (leb 0 k && ltb k (0 + (n - (64 - r + q * 64)))) ≡ true
      inside = in_window k (n - (64 - r + q * 64)) below

      from_start : 64 - r + q * 64 + (k - 0) ≡ 64 - r + q * 64 + k
      from_start = omega arith

  absorb_blocks-Holds : 64 - r ≤ n → Holds (absorb_blocks ctx input n r (64 - r))
  unfolding absorb_blocks
  absorb_blocks-Holds full =
      rw (first_block full, loop_lem (transform ctx.state (block (p * 64) whole)) full)
        (record {
          buffer_size = length-copy _ _ 0 input _ ∙ size;
          digested = absorbed_state full;
          pending = tail_bytes full _ size;
        })
    where
      size : length (block (p * 64) whole) ≡ 64
      size = length-block (p * 64) whole (omega (arith, length-whole))

  rest_of_update : record { state : List ℕ; buffer : List ℕ }
  rest_of_update =
      if leb (64 - r) n then absorb_blocks ctx input n r (64 - r) else keep_bytes ctx input n r

  rest-Holds : Holds rest_of_update
  unfolding rest_of_update
  rest-Holds = elim (Bool-cases (leb (64 - r) n)) [
    | inl t ↦ rw t (absorb_blocks-Holds (ground arith))
    | inr f ↦ rw f (keep_bytes-Holds (ground arith))
  ]

  -- `MD5Update` absorbs the first `inputlen` bytes of its input.
  pub md5_update-Absorbed : Absorbed (md5_update ctx input n) whole
  unfolding md5_update rest_of_update
  md5_update-Absorbed = record {
    buffer_size = rw index_lem rest-Holds.buffer_size;
    digested = rw index_lem rest-Holds.digested;
    pending = rw index_lem rest-Holds.pending;
    count_low = omega arith;
    bits = ground (arith, length-whole, prior.bits, prior.count_low);
  }
