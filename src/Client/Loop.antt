-- ===== src/Client/Loop.antt =====
-- The select loop of `svpn_handle_thread` (src/client/svpn_client.c). What the system calls of one
-- round return is a value of `Round`; what they are given is a list of effects.
use s_vpn.Common.{
  ℕ, ◌/◌, ◌^◌, List, [], ◌∷◌, length, byte_at, take, ◌==◌, if◌then◌else◌, ltb, Bool, Option, none,
  some,
}
use s_vpn.Common.Int.{ℤ, pos, ◌+ℤ◌, ltb_ℤ, to_int32}
use s_vpn.Common.Control.{Control, go_on, skip, stop, ◌>>=◌, then_round}
use s_vpn.Crypt.{CodeTable, encrypt, decrypt}
use s_vpn.Md5.{copy}

-- BUFFER_LEN
abbrev pub buffer_len : ℕ
buffer_len = 4096

-- `struct svpn_client`: the fields that the program uses.
pub record SvpnClient : Type 0 where
  pub dev_name : List ℕ
  pub sock_fd : ℤ
  pub server_addr : List ℕ
  pub tun_fd : ℤ
  pub table : CodeTable

-- The client and the local variables that live through a round.
pub record Loop : Type 0 where
  pub client : SvpnClient
  pub buffer : List ℕ
  pub tmp_buffer : List ℕ
  pub recvc : ℤ
  pub sendc : ℤ

pub data Selected : Type 0 where
  interrupted failed : Selected
  ready : Bool → Bool → Selected

-- What a round's system calls return: `select`, with the tunnel first; the bytes of `read`; the
-- result of `sendto`; the bytes of `recvfrom`.
pub record Round : Type 0 where
  pub selected : Selected
  pub tun_read : Option (List ℕ)
  pub sent : ℤ
  pub received : Option (List ℕ)

pub data Effect : Type 0 where
  write_tun : List ℕ → Effect
  send_to : List ℕ → List ℕ → Effect
  say_dropped : Effect

abbrev pub Outcome : Type 0
Outcome = Control Loop Effect

-- `if (FD_ISSET(psc->tun_fd, &fd_list))`. After a failed `sendto` the round goes on.
unfoldable pub tun_part : Round → Loop → Option (List ℕ) → Outcome
tun_part r s none = skip s []
tun_part r s (some bytes) =
    let len = length bytes in
    let tmp = copy len s.tmp_buffer 0 bytes 0 in
    let buffer = encrypt s.client.table tmp s.buffer len in
    if ltb buffer_len len
    then skip (record s { tmp_buffer = tmp }) []
    else go_on
        (record s { tmp_buffer = tmp; buffer = buffer; sendc = to_int32 (s.sendc +ℤ pos len) })
        (send_to (take len buffer) s.client.server_addr
          ∷ (if ltb_ℤ (pos 0) r.sent then [] else say_dropped ∷ []))

-- `if (FD_ISSET(psc->sock_fd, &fd_list))`
unfoldable pub sock_part : Loop → Option (List ℕ) → Outcome
sock_part s none = skip s []
sock_part s (some bytes) =
    let len = length bytes in
    let tmp = copy len s.tmp_buffer 0 bytes 0 in
    let buffer = decrypt s.client.table tmp s.buffer len in
    let s' = record s {
      tmp_buffer = tmp;
      buffer = buffer;
      recvc = to_int32 (s.recvc +ℤ pos len);
    } in
    if ltb buffer_len len
    then skip (record s { tmp_buffer = tmp }) []
    else (if byte_at buffer 0 / 2 ^ 4 == 4
        then go_on s' (write_tun (take len buffer) ∷ [])
        else skip s' [])

-- The body of `while (1)` once `select` has returned.
unfoldable pub dispatch : Round → Loop → Selected → Outcome
unfolding tun_part sock_part
dispatch r s interrupted = stop
dispatch r s failed = skip s []
dispatch r s (ready tun sock) = (if tun then tun_part r s r.tun_read else go_on s []) >>= λ s'.
    if sock then sock_part s' r.received else go_on s' []

unfoldable pub round : Round → Loop → Outcome
unfolding dispatch
round r s = dispatch r s r.selected

-- The rounds of the loop one after another, up to a `return`.
unfoldable pub handle_thread : List Round → Loop → Outcome
handle_thread [] s = go_on s []
handle_thread (r ∷ rs) s = then_round (round r s) (λ s'. handle_thread rs s')
