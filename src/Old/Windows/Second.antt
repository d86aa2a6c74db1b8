-- ===== src/Old/Windows/Second.antt =====
-- The second receive of `CommClient` (old-code/old/win32/Wtaet/comm.cpp), which only disabled code calls.
use s_vpn.Common.{ℕ, List, ◌==◌, if◌then◌else◌, Option, none, some}
use s_vpn.Common.Int.{ℤ, pos, negsuc}
use s_vpn.Crypt.{decrypt}
use s_vpn.Old.Windows.Channel.{package_buffer_size, init_channel, arrive}
use s_vpn.Old.Windows.Comm.{CommClient, Datagram, Begun, begun_state, Ended, end_at_once}

-- `InitRecv2`
abbrev pub init_recv2 : CommClient → CommClient
init_recv2 comm = record comm { channel2 = init_channel comm.channel2 }

-- A datagram that the system stores.
unfoldable pub store2 : CommClient → Option Datagram → CommClient
unfolding arrive
store2 comm none = comm
store2 comm (some d) = record comm {
  channel2 = arrive comm.channel2 d.bytes;
  server_addr2 = d.from;
}

-- `BeginRecvDecrypt2`
unfoldable pub begin_recv_decrypt2 : CommClient → Begun → ℤ × CommClient
unfolding store2
begin_recv_decrypt2 comm b =
    let started = record comm {
      channel2 = record comm.channel2 { inner_length = package_buffer_size };
    } in
    let stored = store2 started b.at_once in
    let (result, ch) = begun_state b stored.channel2 in (result, record stored { channel2 = ch })

-- Where `WSAGetOverlappedResult` is asked.
unfoldable pub end_overlapped2 : CommClient → List ℕ → ℕ → Option Datagram → Ended
unfolding store2
end_overlapped2 comm buf size none = record {
  result = negsuc 0;
  comm = comm;
  buf = buf;
  size = size;
}
end_overlapped2 comm buf size (some d) =
    let stored = store2 comm (some d) in
    let ch = stored.channel2 in
    record {
      result = pos 0;
      comm = record stored { channel2 = record ch { read_state = 0 } };
      buf = decrypt comm.code_book ch.inner_buf buf ch.inner_length;
      size = ch.inner_length;
    }

-- `EndRecvDecrypt2`
unfoldable pub end_recv_decrypt2 : CommClient → List ℕ → ℕ → Option Datagram → Ended
unfolding end_overlapped2
end_recv_decrypt2 comm buf size completed =
    if comm.channel2.read_state == 1
    then (record {
      result = pos 0;
      comm = record comm { channel2 = record comm.channel2 { read_state = 0 } };
      buf = end_at_once comm.code_book comm.channel2 buf;
      size = comm.channel2.inner_length;
    })
    else end_overlapped2 comm buf size completed
