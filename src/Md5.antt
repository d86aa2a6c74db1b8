-- ===== src/Md5.antt =====
-- src/lib/md5.c
use s_vpn.Common.{
  ℕ, zero, suc, ◌+◌, ◌-◌, ◌*◌, ◌/◌, ◌%◌, ◌^◌, List, [], ◌∷◌, byte_at, set, take, drop, replicate,
  length, u32, ltb, leb, ◌==◌, if◌then◌else◌,
}
pub mod Coding
pub mod Transform
pub mod Reference
pub mod Blocks
pub mod Update
pub mod Digest
pub mod Size
use Coding.{md5_encode}
use Transform.{transform}

pub record Md5Ctx : Type 0 where
  pub count0 : ℕ
  pub count1 : ℕ
  pub state : List ℕ
  pub buffer : List ℕ

-- `PADDING`
abbrev pub padding : List ℕ
padding = 0x80 ∷ replicate 63 0

-- `MD5Init`; it leaves the buffer as it is.
unfoldable pub md5_init : Md5Ctx → Md5Ctx
md5_init ctx = record ctx {
  count0 = 0;
  count1 = 0;
  state = 0x67452301 ∷ 0xEFCDAB89 ∷ 0x98BADCFE ∷ 0x10325476 ∷ [];
}

-- `memcpy(&dst[d], &src[s], n)`
unfoldable pub copy : ℕ → List ℕ → ℕ → List ℕ → ℕ → List ℕ
copy zero dst d src s = dst
copy (suc n) dst d src s = copy n (set dst d (byte_at src s)) (d + 1) src (s + 1)

-- `&input[i]` as a block of 64 bytes.
unfoldable pub block : ℕ → List ℕ → List ℕ
block i input = take 64 (drop i input)

-- `for (i = partlen; i + 64 <= inputlen; i += 64)`: the last `i`, and the state.
unfoldable pub update_loop : ℕ → ℕ → ℕ → List ℕ → List ℕ → record { i : ℕ; state : List ℕ }
update_loop zero i inputlen input state = record { i = i; state = state }
update_loop (suc fuel) i inputlen input state =
    let rest = update_loop fuel (u32 (i + 64)) inputlen input (transform state (block i input)) in
    if leb (u32 (i + 64)) inputlen then rest else record { i = i; state = state }

-- The two branches of `MD5Update`: a first full block and those after it, or no full block.
unfoldable pub absorb_blocks :
    Md5Ctx → List ℕ → ℕ → ℕ → ℕ → record { state : List ℕ; buffer : List ℕ }
absorb_blocks ctx input inputlen index partlen =
    let buffer = copy partlen ctx.buffer index input 0 in
    let done =
      update_loop (inputlen / 64 + 1) partlen inputlen input (transform ctx.state buffer) in
    record { state = done.state; buffer = copy (inputlen - done.i) buffer 0 input done.i }

unfoldable pub keep_bytes : Md5Ctx → List ℕ → ℕ → ℕ → record { state : List ℕ; buffer : List ℕ }
keep_bytes ctx input inputlen index = record {
  state = ctx.state;
  buffer = copy inputlen ctx.buffer index input 0;
}

-- `MD5Update`
unfoldable pub md5_update : Md5Ctx → List ℕ → ℕ → Md5Ctx
unfolding block update_loop copy absorb_blocks keep_bytes
md5_update ctx input inputlen =
    let index = ctx.count0 / 8 % 64 in
    let partlen = 64 - index in
    let count0 = u32 (ctx.count0 + u32 (inputlen * 8)) in
    let carry : ℕ = if ltb count0 (u32 (inputlen * 8)) then 1 else 0 in
    let rest =
      if leb partlen inputlen
      then absorb_blocks ctx input inputlen index partlen
      else keep_bytes ctx input inputlen index in
    record {
      count0 = count0;
      count1 = u32 (ctx.count1 + carry + inputlen / 2 ^ 29);
      state = rest.state;
      buffer = rest.buffer;
    }

-- `MD5Final`: the digest.
unfoldable pub md5_final : Md5Ctx → List ℕ
md5_final ctx =
    let index = ctx.count0 / 8 % 64 in
    let padlen = if ltb index 56 then 56 - index else 120 - index in
    let bits = md5_encode (replicate 8 0) (ctx.count0 ∷ ctx.count1 ∷ []) 8 in
    let ctx = md5_update ctx padding padlen in
    let ctx = md5_update ctx bits 8 in md5_encode (replicate 16 0) ctx.state 16

-- `MD5Fast`; the local context starts with the buffer that the stack holds.
unfoldable pub md5_fast : Md5Ctx → List ℕ → ℕ → List ℕ
md5_fast md5 input len = md5_final (md5_update (md5_init md5) input len)
