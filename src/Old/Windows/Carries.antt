-- ===== src/Old/Windows/Carries.antt =====
-- A packet from the tunnel of one Windows client to that of another with the same password.
use s_vpn.Common.{
  ℕ, ◌+◌, ◌/◌, ◌≤◌, ◌≡◌, sym, ◌∙◌, ap, arith, List, [], ◌∷◌, length, byte_at, IsBytes, ◌==◌, false,
  Option, none, some,
}
use s_vpn.Common.Int.{pos, ltb_ℤ}
use s_vpn.Crypt.{CodeTable}
use s_vpn.Crypt.Codes.{decode_all-encode_all, length-map, encode_all, decode_all}
use s_vpn.Md5.{Md5Ctx}
use s_vpn.Old.Table.{build_timed_table}
use s_vpn.Old.TableLaws.{HasSpace, build_timed_table-IsCodeTable, build_timed_table-same}
use s_vpn.Old.Windows.Channel.{package_buffer_size}
use s_vpn.Old.Windows.Comm.{Datagram, Begun}
use s_vpn.Old.Windows.Tun.{Started}
use s_vpn.Old.Windows.Cycle.{
  Cycle, comm_wakes, tun_wakes, Effect, sent, written, Outcome, tun_part, comm_part,
}
use s_vpn.Old.Windows.Gate.{Gate}
use s_vpn.Old.Windows.Matches.{longest_datagram, FitsDatagram, FitsStarted, Fits, Matches}
use s_vpn.Old.Windows.Rounds.{comm_part-Delivers}
use s_vpn.Old.Windows.TunRound.{Delivers, tun_part-Delivers}
use s_vpn.Common.Control.{go_on, skip, stop, fault}

-- The effects of a part that ends normally.
abbrev pub effects_of : Outcome → Option (List Effect)
effects_of (go_on c es) = some es
effects_of (skip c es) = none
effects_of stop = none
effects_of fault = none

delivered :
    (ct : CodeTable) (o : Outcome) (g : Gate) (es : List Effect)
    → Delivers ct o (g, es)
    → effects_of o ≡ some es
delivered ct (go_on c fs) g es (m, e) = ap some e
delivered ct (skip c fs) g es h = absurd h
delivered ct stop g es h = absurd h
delivered ct fault g es h = absurd h

first_byte : (p : List ℕ) → byte_at p 0 / 16 ≡ 4 → 1 ≤ length p
first_byte [] v4 = absurd (omega arith)
first_byte (b ∷ p) v4 = omega arith

sends :
    (ct : CodeTable) (c : Cycle) (g : Gate) (p enbuf : List ℕ) (started : Started)
    → Matches ct c g
    → g.ahead ≡ none
    → byte_at p 0 / 16 ≡ 4
    → Fits (tun_wakes (some p) enbuf started)
    → effects_of (tun_part c (some p) enbuf started)
      ≡ some (sent (record { bytes = encode_all ct p; from = g.peer }) ∷ [])
sends ct c g p enbuf started m idle v4 fits =
    delivered ct _ _ _ (tun_part-Delivers ct c g (some p) enbuf started m fits)
    ∙ rw (idle, ap (λ n. n == 4) v4)

writes :
    (ct : CodeTable) (compressed_length : List ℕ → ℕ) (c : Cycle) (g : Gate) (d : Datagram)
    (begun : Begun)
    → ((p : List ℕ) → compressed_length p ≤ length p + length p / 16 + 67)
    → Matches ct c g
    → Fits (comm_wakes (some d) begun)
    → effects_of (comm_part compressed_length c (some d) begun)
      ≡ some (written (decode_all ct d.bytes) ∷ [])
writes ct compressed_length c g d begun lzo_bound m fits =
    delivered ct _ _ _ (comm_part-Delivers ct compressed_length lzo_bound c g (some d) begun m fits)

-- A client that runs with the table of a password's digest.
pub record IsRunning (passmd5 : List ℕ) (c : Cycle) (g : Gate) : Type 0 where
  pub stack : Md5Ctx
  pub md : List ℕ
  pub memory : CodeTable
  pub space : HasSpace stack md memory
  pub state : Matches (build_timed_table stack md memory passmd5 0) c g

-- Two clients run with tables from one digest of 16 bytes, made over any stacks and structs that have
-- their arrays, and each is in a state that stands for one of the gate (its arrays have 10000 bytes,
-- `tunlen` is from 1 to 10000, and `netlen` is at most 9349); the tunnel of the first has not read
-- ahead. Then an IPv4 packet of at most 9349 bytes that the first reads from its tunnel becomes one
-- datagram, and the second writes the same packet to its tunnel when that datagram arrives from any
-- address, if the next read and receive answer as documented, with a packet or datagram of a size that
-- fits, and the output of LZO has the bound that LZO documents.
pub carries-packet :
    (compressed_length : List ℕ → ℕ) (passmd5 : List ℕ) (c c' : Cycle) (g g' : Gate)
    (p enbuf : List ℕ) (started : Started) (begun : Begun) (from : List ℕ)
    → ((p : List ℕ) → compressed_length p ≤ length p + length p / 16 + 67)
    → length passmd5 ≡ 16
    → IsRunning passmd5 c g
    → IsRunning passmd5 c' g'
    → g.ahead ≡ none
    → IsBytes p
    → byte_at p 0 / 16 ≡ 4
    → length p ≤ longest_datagram
    → length enbuf ≡ package_buffer_size
    → FitsStarted started
    → FitsDatagram begun.at_once
    → ltb_ℤ (pos 0) begun.ret ≡ false
    → (d : Datagram) × (effects_of (tun_part c (some p) enbuf started) ≡ some (sent d ∷ []))
      × (effects_of (comm_part compressed_length c' (some (record d { from = from })) begun)
          ≡ some (written p ∷ []))
carries-packet compressed_length passmd5 c c' g g' p enbuf started begun from lzo_bound l run run'
      idle bytes v4 small size fits fits_net ret =
    let ct = build_timed_table run.stack run.md run.memory passmd5 0 in
    let ct' = build_timed_table run'.stack run'.md run'.memory passmd5 0 in
    let d : Datagram = record { bytes = encode_all ct p; from = g.peer } in
    let same =
      build_timed_table-same run.stack run'.stack run.md run'.md run.memory run'.memory passmd5 0
        run.space run'.space l in
    let good = build_timed_table-IsCodeTable run.stack run.md run.memory passmd5 0 run.space l in
    let sized = length-map (λ b. byte_at ct.encode b) p in
    let back =
      ap (λ t. decode_all t (encode_all ct p)) (sym same) ∙ decode_all-encode_all ct p good bytes in
    (
      d,
      sends ct c g p enbuf started run.state idle v4 ((first_byte p v4, omega arith), size, fits),
      writes ct' compressed_length c' g' (record d { from = from }) begun lzo_bound run'.state
            (omega (arith, sized), fits_net, ret)
          ∙ ap (λ q. some (written q ∷ [])) back,
    )
