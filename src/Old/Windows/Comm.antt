-- ===== src/Old/Windows/Comm.antt =====
-- `CommClient` of old-code/old/win32/Wtaet/comm.cpp. What the calls of Winsock return is an
-- argument; messages, the events and the options of the socket are left out.
use s_vpn.Common.{
  ℕ, ◌+◌, List, byte_at, set, take, u8, ◌==◌, if◌then◌else◌, ltb, Bool, true, false, Option, none,
  some,
}
use s_vpn.Common.Int.{ℤ, pos, negsuc, ltb_ℤ, is_zero}
use s_vpn.Crypt.{CodeTable, encrypt, decrypt}
use s_vpn.Md5.{Md5Ctx, copy}
use s_vpn.Old.Table.{build_timed_table}
use s_vpn.Old.Windows.Channel.{package_buffer_size, Channel, init_channel, arrive}

pub data CommStatus : Type 0 where
  init connected disconnected error : CommStatus

-- What the program uses of `CommClient`; an address is the bytes of its `sockaddr`.
pub record CommClient : Type 0 where
  pub status : CommStatus
  pub code_book : CodeTable
  pub client_sock : ℤ
  pub server_addr : List ℕ
  pub server_addr2 : List ℕ
  pub channel : Channel
  pub channel2 : Channel

pub record Datagram : Type 0 where
  pub bytes : List ℕ
  pub from : List ℕ

-- The constructor, over the memory of `new`.
abbrev pub new_comm : CommClient → CommClient
new_comm memory = record memory { status = init }

abbrev pub may_connect : CommStatus → Bool
may_connect init = true
may_connect connected = false
may_connect disconnected = true
may_connect error = false

-- `ServerAddr2.sa_data[1]++`, which is the byte at 3.
abbrev pub next_port : List ℕ → List ℕ
next_port addr = set addr 3 (u8 (byte_at addr 3 + 1))

-- `Connect`, with the first address of `getaddrinfo`, the result of `WSASocket`, the digest, and
-- the stack below `BuildTable`. The results of `setsockopt` and `bind` are not read.
module _ (stack : Md5Ctx) (md : List ℕ) where
  unfoldable pub connect_to : CommClient → Option (List ℕ) → ℤ → List ℕ → ℤ × CommClient
  connect_to comm none sock md5 = (negsuc 0, comm)
  connect_to comm (some addr) sock md5 = (
    pos 0,
    record comm {
      server_addr = addr;
      server_addr2 = next_port addr;
      client_sock = sock;
      code_book = build_timed_table stack md comm.code_book md5 0;
    },
  )

  unfoldable pub connect : CommClient → Option (List ℕ) → ℤ → List ℕ → ℤ × CommClient
  unfolding connect_to
  connect comm resolved sock md5 =
      if may_connect comm.status then connect_to comm resolved sock md5 else (negsuc 0, comm)

-- `Disconnect`
abbrev pub disconnect : CommClient → ℤ × CommClient
disconnect comm = (pos 0, comm)

-- `SendEncrypt`, with the array `enbuf` of the stack: the datagram and its address; `none` is a
-- write past the array.
unfoldable pub send_encrypt : CommClient → List ℕ → List ℕ → ℕ → Option Datagram
send_encrypt comm enbuf buf size =
    let encoded = encrypt comm.code_book buf enbuf size in
    if ltb package_buffer_size size
    then none
    else some (record { bytes = take size encoded; from = comm.server_addr })

-- `InitRecv`
abbrev pub init_recv : CommClient → CommClient
init_recv comm = record comm { channel = init_channel comm.channel }

-- What `WSARecvFrom` returns, whether `WSAGetLastError` is WSA_IO_PENDING, and the datagram that it
-- stores at once, if it does.
pub record Begun : Type 0 where
  pub ret : ℤ
  pub pending : Bool
  pub at_once : Option Datagram

-- A datagram that the system stores: its bytes, their number, and the address.
unfoldable pub store : CommClient → Option Datagram → CommClient
unfolding arrive
store comm none = comm
store comm (some d) = record comm { channel = arrive comm.channel d.bytes; server_addr = d.from }

-- The state after the call, from its result.
abbrev pub begun_state : Begun → Channel → ℤ × Channel
begun_state b ch =
    if ltb_ℤ (pos 0) b.ret
    then (pos 0, record ch { read_state = 1 })
    else (if b.pending then (pos 0, record ch { read_state = 0 }) else (negsuc 0, ch))

-- `BeginRecvDecrypt`
unfoldable pub begin_recv_decrypt : CommClient → Begun → ℤ × CommClient
unfolding store
begin_recv_decrypt comm b =
    let started = record comm {
      channel = record comm.channel { inner_length = package_buffer_size };
    } in
    let stored = store started b.at_once in
    let (result, ch) = begun_state b stored.channel in (result, record stored { channel = ch })

-- The result of `EndRecvDecrypt`, the object, and the caller's two variables.
pub record Ended : Type 0 where
  pub result : ℤ
  pub comm : CommClient
  pub buf : List ℕ
  pub size : ℕ

-- Where the data came at once: the last `memcpy` is the source's.
abbrev pub end_at_once : CodeTable → Channel → List ℕ → List ℕ
end_at_once book ch buf =
    copy ch.inner_length (decrypt book ch.inner_buf buf ch.inner_length) 0 ch.inner_buf 0

-- Where `WSAGetOverlappedResult` is asked: `none` is its failure.
unfoldable pub end_overlapped : CommClient → List ℕ → ℕ → Option Datagram → Ended
unfolding store
end_overlapped comm buf size none = record {
  result = negsuc 0;
  comm = comm;
  buf = buf;
  size = size;
}
end_overlapped comm buf size (some d) =
    let stored = store comm (some d) in
    let ch = stored.channel in
    record {
      result = pos 0;
      comm = record stored { channel = record ch { read_state = 0 } };
      buf = decrypt comm.code_book ch.inner_buf buf ch.inner_length;
      size = ch.inner_length;
    }

-- `EndRecvDecrypt`
unfoldable pub end_recv_decrypt : CommClient → List ℕ → ℕ → Option Datagram → Ended
unfolding end_overlapped
end_recv_decrypt comm buf size completed =
    if comm.channel.read_state == 1
    then (record {
      result = pos 0;
      comm = record comm { channel = record comm.channel { read_state = 0 } };
      buf = end_at_once comm.code_book comm.channel buf;
      size = comm.channel.inner_length;
    })
    else end_overlapped comm buf size completed

-- `InitEnvironment` and `CleanEnvironment`, from the results of `WSAStartup` and `WSACleanup`.
abbrev pub init_environment : ℤ → ℤ
init_environment ret = if is_zero ret then pos 0 else negsuc 0

abbrev pub clean_environment : Bool → ℤ
clean_environment socket_error = if socket_error then negsuc 0 else pos 0
