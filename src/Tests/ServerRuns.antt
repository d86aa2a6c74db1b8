-- ===== src/Tests/ServerRuns.antt =====
-- The server's loop and the traffic between both ends.
use s_vpn.Common.{
  ℕ, ◌<◌, ◌≡◌, refl, arith, List, [], ◌∷◌, set, replicate, are_bytes-IsBytes, true, false, none,
  some,
}
use s_vpn.Common.Int.{pos}
use s_vpn.Server.Loop.{
  ClientNode, SvpnServer, Loop, ready, Round, send_to, count_send, count_recv, sock_part, tun_part,
  serve, zero_stat,
}
use s_vpn.Common.Control.{go_on, Ensures}
use s_vpn.Crypt.{build_table}
use s_vpn.Server.Status.{Globals, Tstat, output_info, fill_status}
use s_vpn.Server.StatusLaws.{read_columns, fill_status-reads}
use s_vpn.Server.Keeps.{Keeps}
use s_vpn.Server.Invariant.{serve-Keeps}
use s_vpn.Server.Accept.{IsMoved, accepted_effects}
use s_vpn.Client.Loop as Client
use s_vpn.Traffic.Uplink.{uplink, IsPacketOf, SharesPassword}
use s_vpn.Traffic.Downlink.{downlink, IsPacketFor}
use s_vpn.Traffic.Stale.{short_datagram-IsMoved}
use s_vpn.Tests.CryptRuns.{memory, digest, digest-IsBytes, memory-IsAllocated}

abbrev pub node : ClientNode
node = record { addr = 1 ∷ 1 ∷ []; table = build_table memory digest 6 }

abbrev pub globals : Globals
globals = record {
  stat = record zero_stat { ts_current = pos 1000001; ts_last = pos 1 };
  tl_last = pos 0;
  frec = false;
  fmtstr = replicate 128 0;
}

abbrev server : SvpnServer
server = record {
  dev_name = [];
  local_addr = 192 ∷ 168 ∷ 3 ∷ 1 ∷ [];
  sock_fd = pos 3;
  server_port = 123;
  tun_fd = pos 4;
  clients = set (replicate 256 none) 6 (some node);
}

-- The last packet in the buffer came from user 6.
abbrev pub start : Loop
start = record {
  server = server;
  globals = globals;
  buffer = 0x45 ∷ 0 ∷ 0 ∷ 0 ∷ 0 ∷ 0 ∷ 0 ∷ 0 ∷ 0 ∷ 0 ∷ 0 ∷ 0 ∷ 192 ∷ 168 ∷ 3 ∷ 6 ∷ replicate 48 0;
  tmp_buffer = replicate 64 0;
  addr = [];
}

abbrev pub client : Client.Loop
client = record {
  client = record {
    dev_name = [];
    sock_fd = pos 3;
    server_addr = 9 ∷ 9 ∷ [];
    tun_fd = pos 4;
    table = build_table memory digest 6;
  };
  buffer = replicate 64 0;
  tmp_buffer = replicate 64 0;
  recvc = pos 0;
  sendc = pos 0;
}

-- From 192.168.3.6 to 192.168.3.6.
abbrev pub packet : List ℕ
packet =
    0x45 ∷ 0 ∷ 0 ∷ 20 ∷ 0 ∷ 0 ∷ 0 ∷ 0 ∷ 64 ∷ 17 ∷ 0 ∷ 0 ∷ 192 ∷ 168 ∷ 3 ∷ 6 ∷ 192 ∷ 168 ∷ 3 ∷ 6 ∷ []

abbrev quiet_round : Round
quiet_round = record {
  selected = ready true false;
  now = pos 1000002;
  received = some (6 ∷ [], 66 ∷ 66 ∷ []);
  tun_read = none;
  sent = pos 0;
  opens = true;
}

abbrev client_round : Client.Round
client_round = record {
  selected = Client.ready true false;
  tun_read = some packet;
  sent = pos 20;
  received = none;
}

pub shared : SharesPassword digest 6 (build_table memory digest 6) (build_table memory digest 6)
shared = record {
  digest_bytes = digest-IsBytes;
  user_number = omega arith;
  memory = memory;
  memory' = memory;
  allocated = memory-IsAllocated;
  allocated' = memory-IsAllocated;
  client_table = refl;
  server_table = refl;
}

pub packet-IsPacketOf : IsPacketOf (192 ∷ 168 ∷ 3 ∷ 1 ∷ []) 6 packet
packet-IsPacketOf = record {
  bytes = are_bytes-IsBytes packet refl;
  header = omega arith;
  fits = omega arith;
  version = refl;
  source = refl;
}

pub packet-IsPacketFor : IsPacketFor 6 packet
packet-IsPacketFor = record {
  bytes = are_bytes-IsBytes packet refl;
  header = omega arith;
  fits = omega arith;
  version = refl;
  destination = refl;
}

pub silent :
    (n : ℕ) → n < 100 → output_info true (count_send n globals) ≡ some (count_send n globals, [])
unfolding output_info
silent n h = ground arith

uplink_example :
    (c' : Client.Loop) × (d : List ℕ) × (Client.tun_part client_round client (some packet)
      ≡ go_on c' (Client.send_to d (9 ∷ 9 ∷ []) ∷ []))
    × (t : Loop) × (sock_part quiet_round start (some (d, 66 ∷ 66 ∷ []))
        ≡ go_on t (accepted_effects (record start { addr = 66 ∷ 66 ∷ [] }) 6 node [] packet))
    × IsMoved start t 6 node (66 ∷ 66 ∷ [])
uplink_example =
    uplink digest 6 client client_round quiet_round start node packet (66 ∷ 66 ∷ [])
      (count_send 20 globals) [] shared refl packet-IsPacketOf
      (record { in_tmp = omega arith; in_buffer = omega arith })
      (record { in_tmp = omega arith; in_buffer = omega arith }) (silent 20 (omega arith))

-- The server's round that sends the packet.
abbrev sending_round : Round
sending_round = record quiet_round { selected = ready false true; sent = pos 20 }

silent_recv :
    (n : ℕ)
    → n < 100
    → output_info true (count_recv (pos n) globals) ≡ some (count_recv (pos n) globals, [])
unfolding output_info
silent_recv n h = ground arith

downlink_example :
    (d : List ℕ) × (t : Loop) × (tun_part sending_round start (some packet)
      ≡ go_on t (send_to d (1 ∷ 1 ∷ []) ∷ []))
    × (t.server ≡ server)
    × (t.globals ≡ count_recv (pos 20) globals)
    × (c' : Client.Loop) × (Client.sock_part client (some d)
        ≡ go_on c' (Client.write_tun packet ∷ []))
    × (c'.client ≡ client.client)
downlink_example =
    downlink digest 6 client sending_round start node packet (count_recv (pos 20) globals) [] shared
      refl packet-IsPacketFor (record { in_tmp = omega arith; in_buffer = omega arith })
      (record { in_tmp = omega arith; in_buffer = omega arith }) refl (silent_recv 20 (omega arith))

-- One byte from anywhere.
short_datagram-IsMoved_example :
    (t : Loop) × (p : List ℕ) × (sock_part quiet_round start (some (6 ∷ [], 66 ∷ 66 ∷ []))
      ≡ go_on t (accepted_effects (record start { addr = 66 ∷ 66 ∷ [] }) 6 node [] p))
    × IsMoved start t 6 node (66 ∷ 66 ∷ [])
short_datagram-IsMoved_example =
    short_datagram-IsMoved quiet_round start (6 ∷ []) (66 ∷ 66 ∷ []) 6 node (count_send 1 globals)
      [] (omega arith) (omega arith) refl refl refl
      (record { in_tmp = omega arith; in_buffer = omega arith }) (silent 1 (omega arith))

serve-Keeps_example : Ensures (Keeps start) (serve (quiet_round ∷ quiet_round ∷ []) start)
serve-Keeps_example = serve-Keeps (quiet_round ∷ quiet_round ∷ []) start

abbrev stat : Tstat
stat = record zero_stat {
  total_send = pos 1234567;
  speed_send = pos 89;
  total_recv = pos 0;
  speed_recv = pos 9999999;
}

fill_status-reads_example :
    (read_columns 14 (fill_status (replicate 128 0) stat) 5 14 ≡ 1234567)
    × (read_columns 9 (fill_status (replicate 128 0) stat) 22 9 ≡ 89)
    × (read_columns 14 (fill_status (replicate 128 0) stat) 42 14 ≡ 0)
    × (read_columns 9 (fill_status (replicate 128 0) stat) 59 9 ≡ 9999999)
fill_status-reads_example =
    fill_status-reads (replicate 128 0) stat 1234567 89 0 9999999 (omega arith) refl refl refl refl
      (omega arith) (omega arith) (omega arith) (omega arith)
