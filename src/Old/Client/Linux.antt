-- ===== src/Old/Client/Linux.antt =====
-- The Linux client: the two parts of a round (old-code/old/linux/svpn_client.c), and the bodies of
-- the two threads that can take their place.
use s_vpn.Common.{ℕ, List, [], ◌∷◌, length, take, Option, none, some}
use s_vpn.Common.Control.{go_on, skip, stop}
use s_vpn.Crypt.{encrypt, decrypt}
use s_vpn.Md5.{copy}
use s_vpn.Old.Client as Client
use s_vpn.Old.Client.{Loop, write_tun, send_to, Outcome, count_send, count_recv}

-- From `Encrypt` to `sendto`.
unfoldable pub send_packet : Loop → List ℕ → Outcome
send_packet s bytes =
    let len = length bytes in
    let tmp = copy len s.tmp_buffer 0 bytes 0 in
    let buffer = encrypt s.client.table tmp s.buffer len in
    go_on (record s { tmp_buffer = tmp; buffer = buffer })
      (send_to (take len buffer) s.client.server_addr ∷ [])

-- From `Decrypt` to `write`.
unfoldable pub write_packet : Loop → List ℕ → Outcome
write_packet s bytes =
    let len = length bytes in
    let tmp = copy len s.tmp_buffer 0 bytes 0 in
    let buffer = decrypt s.client.table tmp s.buffer len in
    go_on (record s { tmp_buffer = tmp; buffer = buffer }) (write_tun (take len buffer) ∷ [])

-- `if(FD_ISSET(psc->tun_fd, &fd_list))`
unfoldable pub tun_part : Loop → Option (List ℕ) → Outcome
unfolding send_packet
tun_part s none = skip (count_send s) []
tun_part s (some bytes) = send_packet (count_send s) bytes

-- `if(FD_ISSET(psc->sock_fd, &fd_list))`
unfoldable pub sock_part : Loop → Option (List ℕ) → Outcome
unfolding write_packet
sock_part s none = skip (count_recv s) []
sock_part s (some bytes) = write_packet (count_recv s) bytes

-- `svpn_handle_thread` of the Linux client.
abbrev pub handle_thread : List Client.Round → Loop → Outcome
handle_thread rs s = Client.handle_thread tun_part sock_part rs s

-- What `recvfrom` or `read` returns to a thread of its own: EINTR, another error, or bytes.
pub data Arrival : Type 0 where
  interrupted failed : Arrival
  arrived : List ℕ → Arrival

-- What follows `recvfrom` in a round of `svpn_recv_thread`.
unfoldable pub recv_round : Loop → Arrival → Outcome
unfolding write_packet
recv_round s interrupted = stop
recv_round s failed = skip s []
recv_round s (arrived d) = write_packet s d

-- What follows `read` in a round of `svpn_send_thread`.
unfoldable pub send_round : Loop → Arrival → Outcome
unfolding send_packet
send_round s interrupted = stop
send_round s failed = skip s []
send_round s (arrived p) = send_packet s p
