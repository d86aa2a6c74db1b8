-- ===== src/Server/Refines.antt =====
-- The parts of the select loop do what the relay does.
use s_vpn.Common.{
  ℕ, ◌≤◌, ◌<◌, ◌≡◌, refl, sym, ◌∙◌, ap, arith, List, [], ◌∷◌, ◌++◌, map, length, byte_at, true,
  false,
}
use s_vpn.Common.Control.{go_on, skip, stop, fault}
use s_vpn.Crypt.{CodeTable, decrypt}
use s_vpn.Crypt.Codes.{byte_at-map}
use s_vpn.Md5.{copy}
use s_vpn.Server.Loop.{
  buffer_len, Loop, Effect, write_tun, send_to, say, show, Outcome, client_at, is_source,
}
use s_vpn.Server.Status.{Output}
use s_vpn.Server.Relay.{Packet, to_tun, to_net, Peers, Turn}
use s_vpn.Traffic.Coded.{byte_at-decoded}

-- The view of the server that the relay has.
abbrev pub peers_of : Loop → Peers
peers_of s uid = client_at s.server uid

-- The packets among the effects.
abbrev pub packets_of : List Effect → List Packet
packets_of [] = []
packets_of (write_tun p ∷ es) = to_tun p ∷ packets_of es
packets_of (send_to d addr ∷ es) = to_net d addr ∷ packets_of es
packets_of (say m ∷ es) = packets_of es
packets_of (show o ∷ es) = packets_of es

pub packets_of-append :
    (es fs : List Effect) → packets_of (es ++ fs) ≡ packets_of es ++ packets_of fs
packets_of-append [] fs = refl
packets_of-append (write_tun p ∷ es) fs = ap (λ ps. to_tun p ∷ ps) (packets_of-append es fs)
packets_of-append (send_to d addr ∷ es) fs = ap (λ ps. to_net d addr ∷ ps) (packets_of-append es fs)
packets_of-append (say m ∷ es) fs = packets_of-append es fs
packets_of-append (show o ∷ es) fs = packets_of-append es fs

pub packets_of-show : (os : List Output) → packets_of (map show os) ≡ []
packets_of-show [] = refl
packets_of-show (o ∷ os) = packets_of-show os

-- The end of a part of a round, as the relay has it.
abbrev pub Follows : Outcome → Turn → Type 0
Follows (go_on t es) turn =
    (turn.drops ≡ false) × (peers_of t ≡ turn.peers) × (packets_of es ≡ turn.packets)
Follows (skip t es) turn =
    (turn.drops ≡ true) × (peers_of t ≡ turn.peers) × (packets_of es ≡ turn.packets)
Follows stop turn = ⊥
Follows fault turn = Unit

-- The end of a round, where it does not matter how it ended.
abbrev pub Yields : Outcome → Peers → List Packet → Type 0
Yields (go_on t es) peers packets = (peers_of t ≡ peers) × (packets_of es ≡ packets)
Yields (skip t es) peers packets = (peers_of t ≡ peers) × (packets_of es ≡ packets)
Yields stop peers packets = ⊥
Yields fault peers packets = Unit

-- The two arrays are those of the source.
pub record HasArrays (s : Loop) : Type 0 where
  pub buffer_size : length s.buffer ≡ buffer_len
  pub tmp_size : length s.tmp_buffer ≡ buffer_len

module _ (ct : CodeTable) (d tmp buffer : List ℕ) (fits_tmp : length d ≤ length tmp)
    (fits : length d ≤ length buffer) where
  pub source_same :
      (net : List ℕ) (uid : ℕ)
      → 16 ≤ length d
      → is_source (decrypt ct (copy (length d) tmp 0 d 0) buffer (length d)) net uid
        ≡ is_source (map (λ b. byte_at ct.decode b) d) net uid
  source_same net uid h =
      rw (at 12 (omega arith), at 13 (omega arith), at 14 (omega arith), at 15 (omega arith))
    where
      at :
          (k : ℕ)
          → k < length d
          → byte_at (decrypt ct (copy (length d) tmp 0 d 0) buffer (length d)) k
            ≡ byte_at (map (λ b. byte_at ct.decode b) d) k
      at k h =
          byte_at-decoded ct d tmp buffer fits_tmp fits k h
          ∙ sym (byte_at-map (λ b. byte_at ct.decode b) d k h)
