-- ===== src/Old/Windows/Matches.antt =====
-- How a state of `SendCycle` stands for a gate, and what a read of the tunnel keeps of that.
use s_vpn.Common.{ℕ, ◌≤◌, ◌≡◌, refl, ap, List, [], ◌∷◌, length, ◌==◌, false, Option, none, some}
use s_vpn.Common.Int.{pos, ltb_ℤ}
use s_vpn.Crypt.{CodeTable}
use s_vpn.Old.Windows.Channel.{package_buffer_size, Channel, arrive}
use s_vpn.Old.Windows.Comm.{Datagram}
use s_vpn.Old.Windows.Tun.{
  TunDriver, Started, at_once, pending, failed, Fetched, fetch, fetch_overlapped, begin_read,
  end_read,
}
use s_vpn.Old.Windows.Cycle.{Cycle, Wake, comm_wakes, tun_wakes, other_wake}
use s_vpn.Old.Windows.Gate.{Gate, next_packet, read_ahead}
use s_vpn.Old.Windows.Holds.{Holds, Holds-filled, Holds-copied}

-- The longest datagram whose compression cannot pass the end of `buf2`.
abbrev pub longest_datagram : ℕ
longest_datagram = 9349

abbrev pub FitsDatagram : Option Datagram → Type 0
FitsDatagram none = Unit
FitsDatagram (some d) = length d.bytes ≤ longest_datagram

-- A read that succeeds gives at least a byte.
abbrev pub IsPacket : List ℕ → Type 0
IsPacket p = (1 ≤ length p) × (length p ≤ package_buffer_size)

abbrev pub FitsPacket : Option (List ℕ) → Type 0
FitsPacket none = Unit
FitsPacket (some p) = IsPacket p

abbrev pub FitsStarted : Started → Type 0
FitsStarted (at_once p) = IsPacket p
FitsStarted pending = Unit
FitsStarted failed = Unit

-- `WSARecvFrom` returns 0 or SOCKET_ERROR, and the system fills no more than the buffer.
abbrev pub Fits : Wake → Type 0
Fits (comm_wakes completed next) =
    FitsDatagram completed × FitsDatagram next.at_once × (ltb_ℤ (pos 0) next.ret ≡ false)
Fits (tun_wakes completed enbuf next) =
    FitsPacket completed × (length enbuf ≡ package_buffer_size) × FitsStarted next
Fits other_wake = Unit

abbrev pub AllFit : List Wake → Type 0
AllFit [] = Unit
AllFit (w ∷ ws) = Fits w × AllFit ws

-- The channel of the tunnel, with a packet that it read at once, or none.
abbrev pub IsReading : Channel → Option (List ℕ) → Type 0
IsReading ch none = (ch.read_state ≡ 0) × (length ch.inner_buf ≡ package_buffer_size)
IsReading ch (some p) =
    (ch.read_state ≡ 1) × (Holds ch.inner_buf ch.inner_length p × (1 ≤ length p))

pub record Matches (ct : CodeTable) (c : Cycle) (g : Gate) : Type 0 where
  pub peer : c.comm.server_addr ≡ g.peer
  pub book : c.comm.code_book ≡ ct
  pub quiet : c.comm.channel.read_state ≡ 0
  pub inner : length c.comm.channel.inner_buf ≡ package_buffer_size
  pub reading : IsReading c.tun.channel g.ahead
  pub out : Holds c.tunbuf c.tunlen g.last_out
  pub out_some : 1 ≤ length g.last_out
  pub received : Holds c.buf c.netlen g.last_in
  pub received_small : length g.last_in ≤ longest_datagram

pub begin_read-IsReading :
    (t : TunDriver) (next : Started)
    → IsReading t.channel none
    → FitsStarted next
    → IsReading (begin_read t next).1.channel (read_ahead next)
unfolding begin_read arrive
begin_read-IsReading t (at_once p) (quiet, size) (some_byte, fits) =
    (refl, (Holds-filled t.channel.inner_buf p size fits, some_byte))
begin_read-IsReading t pending (quiet, size) fits = (refl, size)
begin_read-IsReading t failed reading fits = reading

-- A read has ended: the packet is in the caller's array, and no read is noted.
pub record HasFetched (f : Fetched) (p : List ℕ) : Type 0 where
  pub idle : IsReading f.driver.channel none
  pub held : Holds f.buf f.size p
  pub some_byte : 1 ≤ length p

module _ (t : TunDriver) (buf : List ℕ) (size : ℕ) (last : List ℕ) (held : Holds buf size last)
    (some_byte : 1 ≤ length last) where
  fetch-HasFetched :
      (ch : Channel) (p : List ℕ)
      → Holds ch.inner_buf ch.inner_length p
      → 1 ≤ length p
      → HasFetched (fetch t ch buf) p
  fetch-HasFetched ch p inner some_p = record {
    idle = (refl, inner.size);
    held = Holds-copied ch.inner_buf p buf ch.inner_length inner held.size;
    some_byte = some_p;
  }

  fetch_overlapped-HasFetched :
      (completed : Option (List ℕ))
      → length t.channel.inner_buf ≡ package_buffer_size
      → FitsPacket completed
      → HasFetched (fetch_overlapped t buf size completed) (next_packet none completed last)
  unfolding fetch_overlapped arrive
  fetch_overlapped-HasFetched none inner fits = record {
    idle = (refl, inner);
    held = held;
    some_byte = some_byte;
  }
  fetch_overlapped-HasFetched (some p) inner (some_p, fits) =
      fetch-HasFetched (arrive t.channel p) p (Holds-filled t.channel.inner_buf p inner fits) some_p

  pub end_read-HasFetched :
      (ahead completed : Option (List ℕ))
      → IsReading t.channel ahead
      → FitsPacket completed
      → HasFetched (end_read t buf size completed) (next_packet ahead completed last)
  unfolding end_read
  end_read-HasFetched none completed (quiet, inner) fits =
      rw (ap (λ n. n == 1) quiet) (fetch_overlapped-HasFetched completed inner fits)
  end_read-HasFetched (some p) completed (state, (inner, some_p)) fits =
      rw (ap (λ n. n == 1) state) (fetch-HasFetched t.channel p inner some_p)
