-- ===== src/Old/Client/Osx.antt =====
-- The OS X client: the two parts of a round (old-code/old/osx/svpn_client.c). Its tunnel puts four
-- bytes before each packet.
use s_vpn.Common.{
  ℕ, ◌+◌, ◌-◌, List, [], ◌∷◌, ◌++◌, length, take, drop, if◌then◌else◌, ltb, Option, none, some,
}
use s_vpn.Common.Control.{go_on, skip, fault}
use s_vpn.Crypt.{encrypt, decrypt}
use s_vpn.Md5.{copy}
use s_vpn.Old.Client as Client
use s_vpn.Old.Client.{buffer_len, Loop, write_tun, send_to, Outcome, count_send, count_recv}

-- The bytes of the `int` 0x02000000 on a machine with the low byte first.
abbrev pub header : List ℕ
header = 0 ∷ 0 ∷ 0 ∷ 2 ∷ []

-- `if(FD_ISSET(psc->tun_fd, &fd_list))`: the length without the four bytes may be negative.
unfoldable pub tun_part : Loop → Option (List ℕ) → Outcome
tun_part s none = skip (count_send s) []
tun_part s (some bytes) =
    let s' = record (count_send s) { tmp_buffer = copy (length bytes) s.tmp_buffer 0 bytes 0 } in
    let len = length bytes - 4 in
    let buffer = encrypt s.client.table (drop 4 s'.tmp_buffer) s.buffer len in
    if ltb (length bytes) 4
    then skip s' []
    else go_on (record s' { buffer = buffer }) (send_to (take len buffer) s.client.server_addr ∷ [])

-- `if(FD_ISSET(psc->sock_fd, &fd_list))`: `Decrypt` writes from the fifth byte of `buffer`, which
-- has `buffer_len`.
unfoldable pub sock_part : Loop → Option (List ℕ) → Outcome
sock_part s none = skip (count_recv s) []
sock_part s (some bytes) =
    let len = length bytes in
    let tmp = copy len s.tmp_buffer 0 bytes 0 in
    let buffer = header ++ decrypt s.client.table tmp (drop 4 s.buffer) len in
    if ltb buffer_len (len + 4)
    then fault
    else go_on (record (count_recv s) { tmp_buffer = tmp; buffer = buffer })
        (write_tun (take (len + 4) buffer) ∷ [])

-- `svpn_handle_thread` of the OS X client.
abbrev pub handle_thread : List Client.Round → Loop → Outcome
handle_thread rs s = Client.handle_thread tun_part sock_part rs s
