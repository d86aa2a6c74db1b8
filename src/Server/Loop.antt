-- ===== src/Server/Loop.antt =====
-- The select loop of `svpn_server_handle_thread` (src/server/svpn_server.c). What the system
-- calls of one round return is a value of `Round`; what they are given is a list of effects.
use s_vpn.Common.{
  ℕ, List, [], ◌∷◌, ◌++◌, map, length, byte_at, get_or, set, take, ◌==◌, if◌then◌else◌, ltb, ◌&&◌,
  ◌||◌, Bool, true, false, Option, none, some,
}
use s_vpn.Common.Int.{ℤ, pos, ◌+ℤ◌, ltb_ℤ, to_int32}
use Prim.Native.Char.{code}
use Prim.Native.String.{String}
use s_vpn.Crypt.{CodeTable, encrypt, decrypt}
use s_vpn.Md5.{copy}
use s_vpn.Common.Control.{Control, go_on, skip, stop, fault, emit, ◌>>=◌, then_round}
use s_vpn.Server.Status.{Tstat, Globals, Output, output_info}

-- BUFFER_LEN
abbrev pub buffer_len : ℕ
buffer_len = 4096

-- `struct svpn_client_node`; an address is the bytes of its `sockaddr_in6`.
pub record ClientNode : Type 0 where
  pub addr : List ℕ
  pub table : CodeTable

-- `struct svpn_server`, without the saved signal action.
pub record SvpnServer : Type 0 where
  pub dev_name : List ℕ
  pub local_addr : List ℕ
  pub sock_fd : ℤ
  pub server_port : ℕ
  pub tun_fd : ℤ
  pub clients : List (Option ClientNode)

-- The server, the file's globals, and the local variables that live through a round.
pub record Loop : Type 0 where
  pub server : SvpnServer
  pub globals : Globals
  pub buffer : List ℕ
  pub tmp_buffer : List ℕ
  pub addr : List ℕ

pub data Selected : Type 0 where
  interrupted failed : Selected
  ready : Bool → Bool → Selected

-- What a round's system calls return: `select`; the time in microseconds; the bytes of `recvfrom`
-- and their sender; the bytes of `read`; the result of `sendto`; whether `fopen` succeeds.
pub record Round : Type 0 where
  pub selected : Selected
  pub now : ℤ
  pub received : Option (List ℕ × List ℕ)
  pub tun_read : Option (List ℕ)
  pub sent : ℤ
  pub opens : Bool

pub data Message : Type 0 where
  unknown_user : ℕ → Message
  invalid_password : List ℕ → Message
  client_moved : ℕ → List ℕ → Message
  no_such_user : ℕ → Message
  disconnected : ℕ → Message

pub data Effect : Type 0 where
  write_tun : List ℕ → Effect
  send_to : List ℕ → List ℕ → Effect
  say : Message → Effect
  show : Output → Effect

abbrev pub Outcome : Type 0
Outcome = Control Loop Effect

-- `memcmp(a, b, n) == 0` on arrays of one size.
abbrev pub bytes_eq : List ℕ → List ℕ → Bool
bytes_eq [] [] = true
bytes_eq [] (y ∷ ys) = false
bytes_eq (x ∷ xs) [] = false
bytes_eq (x ∷ xs) (y ∷ ys) = x == y && bytes_eq xs ys

abbrev pub client_at : SvpnServer → ℕ → Option ClientNode
client_at srv uid = get_or srv.clients uid none

-- The header's `src_ip` is at offset 12, and its `dst_ip` at offset 16.
abbrev pub is_source : List ℕ → List ℕ → ℕ → Bool
is_source packet local_addr uid =
    byte_at packet 12 == byte_at local_addr 0
    && byte_at packet 13 == byte_at local_addr 1
    && byte_at packet 14 == byte_at local_addr 2
    && byte_at packet 15 == uid

-- The last lines of the socket's part: the status line, and the packet to the tunnel.
unfoldable pub deliver : Loop → ℕ → Option (Globals × List Output) → Outcome
deliver s len none = fault
deliver s len (some (g, os)) =
    go_on (record s { globals = g }) (map show os ++ (write_tun (take len s.buffer) ∷ []))

abbrev pub count_send : ℕ → Globals → Globals
count_send len g = record g {
  stat = record g.stat {
    total_send = g.stat.total_send +ℤ pos len;
    total_pkgsend = to_int32 (g.stat.total_pkgsend +ℤ pos 1);
  };
}

abbrev pub count_recv : ℤ → Globals → Globals
count_recv len g = record g {
  stat = record g.stat {
    total_recv = g.stat.total_recv +ℤ len;
    total_pkgrecv = to_int32 (g.stat.total_pkgrecv +ℤ pos 1);
  };
}

-- The client's address becomes the sender's.
unfoldable pub relocate : Loop → ℕ → ClientNode → Loop
relocate s uid node = if bytes_eq s.addr node.addr then s else (record s {
  server = record s.server {
    clients = set s.server.clients uid (some (record node { addr = s.addr }));
  };
})

abbrev pub moved_message : Loop → ℕ → ClientNode → List Effect
moved_message s uid node =
    if bytes_eq s.addr node.addr then [] else say (client_moved uid s.addr) ∷ []

-- A packet of `len` bytes in `buffer` that passes the check of its source.
unfoldable pub accept : Round → Loop → ℕ → ℕ → ClientNode → Outcome
unfolding deliver relocate
accept r s len uid node =
    let s' = relocate s uid node in
    emit (moved_message s uid node)
      (deliver s' len (output_info r.opens (count_send len s'.globals)))

unfoldable pub from_client : Round → Loop → ℕ → ℕ → Option ClientNode → Outcome
unfolding accept
from_client r s len uid none = skip s (say (unknown_user uid) ∷ [])
from_client r s len uid (some node) =
    let s' = record s { buffer = decrypt node.table s.tmp_buffer s.buffer len } in
    if is_source s'.buffer s.server.local_addr uid
    then accept r s' len uid node
    else skip s' (say (invalid_password s.addr) ∷ [])

-- `if (FD_ISSET(psc->sock_fd, &fd_list))`
unfoldable pub sock_part : Round → Loop → Option (List ℕ × List ℕ) → Outcome
unfolding from_client
sock_part r s none = skip s []
sock_part r s (some (bytes, from)) =
    let len = length bytes in
    let s' = record s { tmp_buffer = copy len s.tmp_buffer 0 bytes 0; addr = from } in
    let uid = byte_at s'.tmp_buffer 0 in
    if len == 0 || ltb buffer_len len
    then skip s' []
    else from_client r s' len uid (client_at s'.server uid)

-- The last lines of the tunnel's part.
unfoldable pub after_send : Round → Loop → ℕ → Effect → Outcome
after_send r s uid sending =
    if ltb_ℤ (pos 0) r.sent
    then (let g = count_recv r.sent s.globals in
        elim (output_info r.opens g) [
          | none ↦ fault
          | some (g', os) ↦ go_on (record s { globals = g' }) (sending ∷ map show os)
        ])
    else skip s (sending ∷ say (disconnected uid) ∷ [])

unfoldable pub to_client : Round → Loop → ℕ → ℕ → Option ClientNode → Outcome
unfolding after_send
to_client r s len uid none = skip s (say (no_such_user uid) ∷ [])
to_client r s len uid (some node) =
    let s' = record s { buffer = encrypt node.table s.tmp_buffer s.buffer len } in
    after_send r s' uid (send_to (take len s'.buffer) node.addr)

-- `if (FD_ISSET(psc->tun_fd, &fd_list))`
unfoldable pub tun_part : Round → Loop → Option (List ℕ) → Outcome
unfolding to_client
tun_part r s none = skip s []
tun_part r s (some bytes) =
    let len = length bytes in
    let s' = record s { tmp_buffer = copy len s.tmp_buffer 0 bytes 0 } in
    let uid = byte_at s'.tmp_buffer 19 in
    if len == 0 || ltb buffer_len len
    then skip s' []
    else to_client r s' len uid (client_at s'.server uid)

abbrev pub update_time : ℤ → Loop → Loop
update_time now s = record s {
  globals = record s.globals { stat = record s.globals.stat { ts_current = now } };
}

-- The body of `while (1)` once `select` has returned.
unfoldable pub dispatch : Round → Loop → Selected → Outcome
unfolding sock_part tun_part
dispatch r s interrupted = stop
dispatch r s failed = skip s []
dispatch r s (ready sock tun) =
    (if sock then sock_part r (update_time r.now s) r.received else go_on (update_time r.now s) [])
    >>= λ s'. if tun then tun_part r s' r.tun_read else go_on s' []

unfoldable pub round : Round → Loop → Outcome
unfolding dispatch
round r s = dispatch r s r.selected

-- The code points of a text.
abbrev pub codes : String → List ℕ
codes String.[] = []
codes (String.◌∷◌ c s) = code c ∷ codes s

abbrev pub status_format : List ℕ
status_format =
    codes "Send:99,000,000,000B [9,000,000B/s], Recv:99,000,000,000B [9,000,000B/s]"
    ++ (13 ∷ 0 ∷ [])

abbrev pub zero_stat : Tstat
zero_stat = record {
  total_send = pos 0;
  total_recv = pos 0;
  last_send = pos 0;
  last_recv = pos 0;
  total_pkgsend = pos 0;
  total_pkgrecv = pos 0;
  last_pkgsend = pos 0;
  last_pkgrecv = pos 0;
  speed_send = pos 0;
  speed_recv = pos 0;
  ts_last = pos 0;
  ts_current = pos 0;
}

-- The lines before the loop, over the memory that `fmtstr` and the local arrays have.
unfoldable pub enter_loop : ℤ → Loop → Loop
enter_loop now s = record s {
  globals = record s.globals {
    fmtstr = copy (length status_format) s.globals.fmtstr 0 status_format 0;
    stat = record zero_stat { ts_last = now };
  };
}

-- The rounds of the loop one after another, up to a `return` or a fault.
unfoldable pub serve : List Round → Loop → Outcome
serve [] s = go_on s []
serve (r ∷ rs) s = then_round (round r s) (λ s'. serve rs s')
