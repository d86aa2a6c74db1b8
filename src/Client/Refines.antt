-- ===== src/Client/Refines.antt =====
-- How the state and the effects of the client's loop stand for its relay's.
use s_vpn.Common.{ℕ, ◌≤◌, ◌≡◌, refl, ap, List, [], ◌∷◌, ◌++◌, length, Option, none, some}
use s_vpn.Crypt.{CodeTable}
use s_vpn.Client.Loop.{buffer_len, Loop, Round, Effect, write_tun, send_to, say_dropped}
use s_vpn.Client.Relay.{Packet, to_tun, to_net}

-- The packets among the effects.
abbrev pub packets_of : List Effect → List Packet
packets_of [] = []
packets_of (write_tun p ∷ es) = to_tun p ∷ packets_of es
packets_of (send_to d addr ∷ es) = to_net d addr ∷ packets_of es
packets_of (say_dropped ∷ es) = packets_of es

pub packets_of-append :
    (es fs : List Effect) → packets_of (es ++ fs) ≡ packets_of es ++ packets_of fs
packets_of-append [] fs = refl
packets_of-append (write_tun p ∷ es) fs = ap (λ ps. to_tun p ∷ ps) (packets_of-append es fs)
packets_of-append (send_to d addr ∷ es) fs = ap (λ ps. to_net d addr ∷ ps) (packets_of-append es fs)
packets_of-append (say_dropped ∷ es) fs = packets_of-append es fs

-- A client of this table and this server, with arrays of the source's size.
pub record IsClient (ct : CodeTable) (server_addr : List ℕ) (s : Loop) : Type 0 where
  pub table : s.client.table ≡ ct
  pub server : s.client.server_addr ≡ server_addr
  pub buffer_size : length s.buffer ≡ buffer_len
  pub tmp_size : length s.tmp_buffer ≡ buffer_len

abbrev pub FitsOut : Option (List ℕ) → Type 0
FitsOut none = Unit
FitsOut (some p) = length p ≤ buffer_len

abbrev pub FitsIn : Option (List ℕ) → Type 0
FitsIn none = Unit
FitsIn (some d) = (1 ≤ length d) × (length d ≤ buffer_len)

abbrev pub AllFit : List Round → Type 0
AllFit [] = Unit
AllFit (r ∷ rs) = (FitsOut r.tun_read × FitsIn r.received) × AllFit rs
