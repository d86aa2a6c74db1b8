-- ===== src/Old/Windows/Laws.antt =====
-- What `SendCycle` of the Windows client does from its start on.
use s_vpn.Common.{
  ℕ, ◌+◌, ◌/◌, ◌≤◌, ◌≡◌, refl, arith, List, [], length, take, length-take, false, none,
}
use s_vpn.Common.Int.{pos, ltb_ℤ}
use s_vpn.Old.Windows.Channel.{package_buffer_size}
use s_vpn.Old.Windows.Comm.{Begun, init_recv}
use s_vpn.Old.Windows.Tun.{Started, init_read}
use s_vpn.Old.Windows.Cycle.{Cycle, Wake, start_cycle, send_cycle}
use s_vpn.Old.Windows.Gate.{Gate, peer_after, read_ahead, gate}
use s_vpn.Old.Windows.Holds.{Holds-own}
use s_vpn.Old.Windows.Matches.{longest_datagram, FitsDatagram, FitsStarted, AllFit, Matches}
use s_vpn.Old.Windows.Rounds.{restart_comm-Delivers, cycle-Delivers}
use s_vpn.Old.Windows.TunRound.{Delivers, restart_tun-Delivers}

-- The arrays have their sizes, and the two lengths that nothing sets are in range.
pub record HasArrays (c : Cycle) : Type 0 where
  pub net_inner : length c.comm.channel.inner_buf ≡ package_buffer_size
  pub tun_inner : length c.tun.channel.inner_buf ≡ package_buffer_size
  pub buf_size : length c.buf ≡ package_buffer_size
  pub tunbuf_size : length c.tunbuf ≡ package_buffer_size
  pub tunlen_some : 1 ≤ c.tunlen
  pub tunlen_fits : c.tunlen ≤ package_buffer_size
  pub netlen_fits : c.netlen ≤ longest_datagram

-- The gate before the loop; what the stack holds counts as the last packets.
abbrev pub start_gate : Cycle → Started → Begun → Gate
start_gate c started begun = record {
  peer = peer_after c.comm.server_addr begun.at_once;
  ahead = read_ahead started;
  last_out = take c.tunlen c.tunbuf;
  last_in = take c.netlen c.buf;
}

pub start-Matches :
    (c : Cycle) (started : Started) (begun : Begun)
    → HasArrays c
    → FitsStarted started
    → FitsDatagram begun.at_once
    → ltb_ℤ (pos 0) begun.ret ≡ false
    → Matches c.comm.code_book (start_cycle c started begun) (start_gate c started begun)
start-Matches c started begun arrays fits fits_net ret =
    let ready = record c { tun = init_read c.tun; comm = init_recv c.comm } in
    let silent : Gate = record {
      peer = c.comm.server_addr;
      ahead = none;
      last_out = take c.tunlen c.tunbuf;
      last_in = take c.netlen c.buf;
    } in
    let at_start : Matches c.comm.code_book ready silent = record {
      peer = refl;
      book = refl;
      quiet = refl;
      inner = arrays.net_inner;
      reading = (refl, arrays.tun_inner);
      out = Holds-own c.tunbuf c.tunlen arrays.tunbuf_size arrays.tunlen_fits;
      out_some = omega (
        arith,
        length-take {0} c.tunlen c.tunbuf,
        arrays.tunlen_some,
        arrays.tunbuf_size,
        arrays.tunlen_fits,
      );
      received = Holds-own c.buf c.netlen arrays.buf_size (omega (arith, arrays.netlen_fits));
      received_small = omega (arith, length-take {0} c.netlen c.buf, arrays.netlen_fits);
    } in
    let reading =
      restart_tun-Delivers c.comm.code_book ready silent [] started at_start
        (refl, arrays.tun_inner) fits in
    (restart_comm-Delivers c.comm.code_book _ _ [] begun reading.0 fits_net ret).0

-- Conditions: the arrays of the stack and of both channels have their 10000 bytes; `tunlen`, which the
-- source does not initialise, is from 1 to 10000 at the start, and `netlen`, which it does not
-- initialise either, at most 9349; calls answer as Winsock and Windows document (WSARecvFrom returns 0
-- or SOCKET_ERROR, a read gives a byte at least and no more than its buffer takes); a datagram has at
-- most 9349 bytes; the output of LZO has the bound that LZO documents.
-- Then the thread ends no sequence of wakes in undefined behaviour, and what it sends and writes is
-- what the gate does: each IPv4 packet of the tunnel is sent in code to the address that sent the last
-- datagram, each datagram is written decoded, and a read or receive that fails repeats the last packet,
-- at first what the stack holds.
pub send_cycle-Delivers :
    (compressed_length : List ℕ → ℕ) (c : Cycle) (started : Started) (begun : Begun)
    (wakes : List Wake)
    → ((p : List ℕ) → compressed_length p ≤ length p + length p / 16 + 67)
    → HasArrays c
    → FitsStarted started
    → FitsDatagram begun.at_once
    → ltb_ℤ (pos 0) begun.ret ≡ false
    → AllFit wakes
    → Delivers c.comm.code_book
        (send_cycle compressed_length c started begun wakes)
        (gate c.comm.code_book (start_gate c started begun) wakes)
unfolding send_cycle
send_cycle-Delivers compressed_length c started begun wakes lzo_bound arrays fits fits_net ret all =
    cycle-Delivers c.comm.code_book compressed_length lzo_bound (start_cycle c started begun)
      (start_gate c started begun) wakes (start-Matches c started begun arrays fits fits_net ret)
      all
