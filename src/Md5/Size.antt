-- ===== src/Md5/Size.antt =====
-- A digest has sixteen bytes.
use s_vpn.Common.{
  ℕ, zero, suc, ◌+◌, ◌*◌, ◌≡◌, refl, ◌∙◌, ap, arith, List, [], ◌∷◌, length, length-append,
}
use s_vpn.Md5.{block}
use s_vpn.Md5.Transform.{transform}
use s_vpn.Md5.Reference.{absorb, initial_state, le_bytes, words_to_bytes, md5_reference}
use s_vpn.Md5.Digest.{length-le_bytes}

length-transform : (state block : List ℕ) → length (transform state block) ≡ 4
unfolding transform
length-transform state block = refl

length-absorb :
    (n i : ℕ) (state message : List ℕ) → length state ≡ 4 → length (absorb n i state message) ≡ 4
unfolding absorb
length-absorb zero i state message l = l
length-absorb (suc n) i state message l =
    length-absorb n (i + 64) _ message (length-transform state (block i message))

length-words_to_bytes : (ws : List ℕ) → length (words_to_bytes ws) ≡ 4 * length ws
unfolding words_to_bytes
length-words_to_bytes [] = refl
length-words_to_bytes (w ∷ ws) = omega (
  arith,
  length-append (le_bytes 4 w) (words_to_bytes ws),
  length-le_bytes 4 w,
  length-words_to_bytes ws,
)

pub length-md5_reference : (m : List ℕ) → length (md5_reference m) ≡ 16
unfolding md5_reference
length-md5_reference m =
    length-words_to_bytes _ ∙ ap (λ n. 4 * n) (length-absorb _ 0 initial_state _ refl)
