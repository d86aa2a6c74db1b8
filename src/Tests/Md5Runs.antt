-- ===== src/Tests/Md5Runs.antt =====
-- Digests of RFC 1321's test suite.
use s_vpn.Common.{ℕ, List, [], ◌∷◌, ◌≡◌, refl, replicate, arith}
use s_vpn.Md5.{Md5Ctx, md5_init, md5_update, md5_final, md5_fast}
use s_vpn.Md5.Reference.{md5_reference}
use s_vpn.Md5.Digest.{md5_fast-eq-reference, md5-streaming}
use s_vpn.Md5.Transform.{
  transform, round1, round2, round3, round4, ff, gg, hh, ii, f, g, h, i, rotate_left,
}
use s_vpn.Md5.Coding.{md5_encode, md5_decode}

abbrev fresh : Md5Ctx
fresh = record { count0 = 7; count1 = 9; state = []; buffer = replicate 64 170 }

digest_of_a :
    md5_fast fresh (97 ∷ []) 1
    ≡ 0x0c ∷ 0xc1 ∷ 0x75 ∷ 0xb9 ∷ 0xc0 ∷ 0xf1 ∷ 0xb6 ∷ 0xa8 ∷ 0x31 ∷ 0xc3 ∷ 0x99 ∷ 0xe2 ∷ 0x69
      ∷ 0x77 ∷ 0x26 ∷ 0x61 ∷ []
unfolding md5_fast md5_init md5_update md5_final md5_encode transform round1 round2 round3 round4 ff
    gg hh ii f g h i rotate_left md5_decode
digest_of_a = refl

abbrev abc : List ℕ
abc = 97 ∷ 98 ∷ 99 ∷ []

md5_fast-eq-reference_example : md5_fast fresh abc 2 ≡ md5_reference (97 ∷ 98 ∷ [])
md5_fast-eq-reference_example = md5_fast-eq-reference fresh abc 2 refl (omega arith) (omega arith)

md5-streaming_example :
    md5_final (md5_update (md5_update (md5_init fresh) abc 3) (100 ∷ []) 1)
    ≡ md5_reference (97 ∷ 98 ∷ 99 ∷ 100 ∷ [])
md5-streaming_example = md5-streaming fresh abc (100 ∷ []) refl (omega arith) (omega arith)
