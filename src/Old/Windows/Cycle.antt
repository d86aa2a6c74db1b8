-- ===== src/Old/Windows/Cycle.antt =====
-- `Client::SendCycle` of old-code/old/win32/Wtaet/Client.cpp: the thread between the tunnel and
-- the socket. `Running` is set by `Run` and reset nowhere, so the loop is the list of its wakes.
use s_vpn.Common.{
  ℕ, ◌/◌, List, [], ◌∷◌, byte_at, take, ◌==◌, if◌then◌else◌, ltb, ◌||◌, Option, none, some,
}
use s_vpn.Common.Control.{Control, go_on, fault, ◌>>=◌, then_round}
use s_vpn.Old.Windows.Channel.{package_buffer_size}
use s_vpn.Old.Windows.Comm.{
  CommClient, Datagram, Begun, send_encrypt, init_recv, begin_recv_decrypt, end_recv_decrypt,
}
use s_vpn.Old.Windows.Tun.{TunDriver, Started, init_read, begin_read, end_read}

-- The two objects and the arrays and lengths of the stack.
pub record Cycle : Type 0 where
  pub tun : TunDriver
  pub comm : CommClient
  pub buf : List ℕ
  pub tunbuf : List ℕ
  pub tunlen : ℕ
  pub netlen : ℕ

-- What `WaitForMultipleObjects` returns, with what the calls of that round meet: the data of the
-- overlapped call, the memory of `enbuf`, and what the next call that begins does.
pub data Wake : Type 0 where
  comm_wakes : Option Datagram → Begun → Wake
  tun_wakes : Option (List ℕ) → List ℕ → Started → Wake
  other_wake : Wake

-- A `sendto`, and a `Write`; their results are not read.
pub data Effect : Type 0 where
  sent : Datagram → Effect
  written : List ℕ → Effect

abbrev pub Outcome : Type 0
Outcome = Control Cycle Effect

-- `tun->EndRead(tunbuf, tunlen);`
unfoldable pub fetched : Cycle → Option (List ℕ) → Cycle
fetched c completed =
    let f = end_read c.tun c.tunbuf c.tunlen completed in
    record c { tun = f.driver; tunbuf = f.buf; tunlen = f.size }

abbrev pub send_datagram : Cycle → Option Datagram → Outcome
send_datagram c none = fault
send_datagram c (some d) = go_on c (sent d ∷ [])

-- `if (tunbuf[0] >> 4 == 4)`
unfoldable pub forward : Cycle → List ℕ → Outcome
forward c enbuf =
    if byte_at c.tunbuf 0 / 16 == 4
    then send_datagram c (send_encrypt c.comm enbuf c.tunbuf c.tunlen)
    else go_on c []

abbrev pub restart_tun : Started → Cycle → Outcome
restart_tun next c = let (result, tun) = begin_read c.tun next in go_on (record c { tun = tun }) []

unfoldable pub tun_part : Cycle → Option (List ℕ) → List ℕ → Started → Outcome
unfolding fetched forward
tun_part c completed enbuf next = forward (fetched c completed) enbuf >>= restart_tun next

-- `comm->EndRecvDecrypt(buf, netlen);`: the result is not read.
unfoldable pub received : Cycle → Option Datagram → Cycle
received c completed =
    let e = end_recv_decrypt c.comm c.buf c.netlen completed in
    record c { comm = e.comm; buf = e.buf; netlen = e.size }

abbrev pub restart_comm : Begun → Cycle → Outcome
restart_comm next c =
    let (result, comm) = begin_recv_decrypt c.comm next in go_on (record c { comm = comm }) []

-- Before the loop.
abbrev pub start_cycle : Cycle → Started → Begun → Cycle
start_cycle c started begun =
    let (read, tun) = begin_read (init_read c.tun) started in
    let (recv, comm) = begin_recv_decrypt (init_recv c.comm) begun in
    record c { tun = tun; comm = comm }

-- The length that `lzo1x_1_compress` gives to what is received.
module _ (compressed_length : List ℕ → ℕ) where
  -- The compression into `buf2`, past whose end it writes where the result is longer, and `Write`.
  unfoldable pub write_received : Cycle → Outcome
  write_received c =
      let packet = take c.netlen c.buf in
      if ltb package_buffer_size c.netlen || ltb package_buffer_size (compressed_length packet)
      then fault
      else go_on c (written packet ∷ [])

  unfoldable pub comm_part : Cycle → Option Datagram → Begun → Outcome
  unfolding received write_received
  comm_part c completed next = write_received (received c completed) >>= restart_comm next

  -- A round of the loop.
  unfoldable pub cycle_round : Cycle → Wake → Outcome
  unfolding tun_part comm_part
  cycle_round c (comm_wakes completed next) = comm_part c completed next
  cycle_round c (tun_wakes completed enbuf next) = tun_part c completed enbuf next
  cycle_round c other_wake = go_on c []

  unfoldable pub cycle : Cycle → List Wake → Outcome
  unfolding cycle_round
  cycle c [] = go_on c []
  cycle c (w ∷ ws) = then_round (cycle_round c w) (λ c'. cycle c' ws)

  unfoldable pub send_cycle : Cycle → Started → Begun → List Wake → Outcome
  unfolding cycle
  send_cycle c started begun wakes = cycle (start_cycle c started begun) wakes
