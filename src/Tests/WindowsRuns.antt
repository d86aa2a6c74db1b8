-- ===== src/Tests/WindowsRuns.antt =====
-- The Windows client: its program, its thread, and its query of the adapters, at small inputs.
use s_vpn.Common.{
  ℕ, ◌+◌, ◌/◌, ◌<◌, ◌≡◌, refl, arith, List, [], ◌∷◌, length, replicate, length-replicate, inl, true,
  none, some,
}
use s_vpn.Common.Int.{pos, negsuc}
use s_vpn.Crypt.{CodeTable}
use s_vpn.Md5.{md5_fast}
use s_vpn.Old.Table.{build_timed_table}
use s_vpn.Tests.CryptRuns.{memory, digest}
use s_vpn.Tests.OldRuns.{stack, space, replicate-IsBytes}
use s_vpn.Old.Windows.Channel.{Channel}
use s_vpn.Old.Windows.Comm.{init, Datagram, Begun}
use s_vpn.Old.Windows.Tun.{
  TunDriver, Device, pending, at_once, open_driver, open_file, check_device,
}
use s_vpn.Old.Windows.Registry.{
  target_component_id, TunAdaptersInfo, SubKey, Registry, query_tun_adapter_info,
}
use s_vpn.Old.Windows.Config.{Config, user_a}
use s_vpn.Old.Windows.Cycle.{
  start_cycle, Cycle, Wake, comm_wakes, tun_wakes, send_cycle, Outcome, sent, written, tun_part,
  comm_part,
}
use s_vpn.Old.Windows.Gate.{gate}
use s_vpn.Old.Windows.Matches.{AllFit}
use s_vpn.Old.Windows.TunRound.{Delivers}
use s_vpn.Old.Windows.Laws.{HasArrays, start_gate, start-Matches, send_cycle-Delivers}
use s_vpn.Old.Windows.Carries.{effects_of, IsRunning, carries-packet}
use s_vpn.Old.Windows.RegistryTally.{AllIdsFit, is_adapter, is_instance, number, Tallies}
use s_vpn.Old.Windows.RegistryLaws.{sub_keys_of, query_tun_adapter_info-Tallies}
use s_vpn.Old.Windows.Program.{
  Machine, Initialized, wild, deleted, initialize, cycle_with, after_run, crashed, looping,
  cycle_memory, Routes, main_program,
}
use s_vpn.Old.Windows.ProgramLaws.{connected_comm, main_program-crashes, main_program-Delivers}

abbrev array : List ℕ
array = replicate 10000 0

array-size : length array ≡ 10000
array-size = length-replicate {A = ℕ} 10000 0

abbrev channel : Channel
channel = record { read_state = 0; inner_buf = array; inner_length = 0 }

-- The table of `Connect` from this digest.
abbrev book : ℕ → List ℕ → CodeTable
book b md5 = build_timed_table (stack b) (replicate 17 b) memory md5 0

abbrev client : ℕ → List ℕ → Cycle
client b md5 = record {
  tun = record { fd = pos 3; mtu = 1500; channel = channel };
  comm = record {
    status = init;
    code_book = book b md5;
    client_sock = pos 4;
    server_addr = 2 ∷ 0 ∷ 130 ∷ 53 ∷ [];
    server_addr2 = [];
    channel = channel;
    channel2 = channel;
  };
  buf = array;
  tunbuf = array;
  tunlen = 1;
  netlen = 0;
}

client-HasArrays : (b : ℕ) (md5 : List ℕ) → HasArrays (client b md5)
client-HasArrays b md5 = record {
  net_inner = array-size;
  tun_inner = array-size;
  buf_size = array-size;
  tunbuf_size = array-size;
  tunlen_some = omega arith;
  tunlen_fits = omega arith;
  netlen_fits = omega arith;
}

-- What the compression gives at worst.
abbrev worst : List ℕ → ℕ
worst p = length p + length p / 16 + 67

abbrev packet : List ℕ
packet = replicate 20 69

abbrev stranger : Datagram
stranger = record { bytes = 7 ∷ 7 ∷ []; from = 2 ∷ 0 ∷ 0 ∷ 9 ∷ [] }

abbrev waits : Begun
waits = record { ret = negsuc 0; pending = true; at_once = none }

-- A packet, a datagram of a stranger, a packet that was there at once, and a receive that fails.
abbrev wakes : List Wake
wakes =
    tun_wakes (some packet) array (at_once packet)
    ∷ comm_wakes (some stranger) waits
    ∷ tun_wakes none array pending
    ∷ comm_wakes none waits
    ∷ []

wakes-AllFit : AllFit wakes
wakes-AllFit = (
  ((omega arith, omega arith), array-size, (omega arith, omega arith)),
  ((omega arith, tt, refl), ((tt, array-size, tt), ((tt, tt, refl), tt))),
)

send_cycle-Delivers_example :
    Delivers
      (book 3 digest)
      (send_cycle worst (client 3 digest) pending waits wakes)
      (gate (book 3 digest) (start_gate (client 3 digest) pending waits) wakes)
send_cycle-Delivers_example =
    send_cycle-Delivers worst (client 3 digest) pending waits wakes (λ p. omega arith)
      (client-HasArrays 3 digest) tt tt refl wakes-AllFit

abbrev running : ℕ → Cycle
running b = start_cycle (client b digest) pending waits

client-IsRunning :
    (b : ℕ) → b < 256 → IsRunning digest (running b) (start_gate (client b digest) pending waits)
client-IsRunning b h = record {
  stack = stack b;
  md = replicate 17 b;
  memory = memory;
  space = space b h;
  state = start-Matches (client b digest) pending waits (client-HasArrays b digest) tt tt refl;
}

carries-packet_example :
    (d : Datagram) × (effects_of (tun_part (running 3) (some packet) array pending)
      ≡ some (sent d ∷ []))
    × (effects_of (comm_part worst (running 9) (some (record d { from = 1 ∷ [] })) waits)
        ≡ some (written packet ∷ []))
carries-packet_example =
    carries-packet worst digest (running 3) (running 9) (start_gate (client 3 digest) pending waits)
      (start_gate (client 9 digest) pending waits) packet array pending waits (1 ∷ [])
      (λ p. omega arith) refl (client-IsRunning 3 (omega arith)) (client-IsRunning 9 (omega arith))
      refl (replicate-IsBytes 20 69 (omega arith)) refl (omega arith) array-size tt tt refl

-- An adapter with a name, one without a connection, and a subkey of another component.
abbrev named_key : SubKey
named_key = record {
  named = true;
  handle = some (pos 12);
  comp_id = some target_component_id;
  net_cfg_id = some (65 ∷ []);
  connection = some (pos 13);
  conn_name = some (66 ∷ []);
}

abbrev registry : Registry
registry = record {
  adapters_key = some (pos 10);
  connections_key = some (pos 11);
  sub_keys = some (
      named_key
      ∷ record named_key { connection = none }
      ∷ record named_key { comp_id = some (1 ∷ []) }
      ∷ []);
}

registry-AllIdsFit : AllIdsFit (sub_keys_of registry)
registry-AllIdsFit = (refl, (refl, (refl, tt)))

abbrev info : TunAdaptersInfo
info = record { count = 5; adapters = [] }

query_tun_adapter_info-Tallies_example :
    Tallies 0
      (number is_adapter (sub_keys_of registry))
      (number is_instance (sub_keys_of registry))
      (query_tun_adapter_info info registry)
query_tun_adapter_info-Tallies_example =
    query_tun_adapter_info-Tallies info registry registry-AllIdsFit

abbrev device : Device
device = record {
  handle = some (pos 3);
  version = 9 ∷ 9 ∷ 0 ∷ [];
  mtu = 1500;
  config_tun = true;
  media_set = true;
  memory = channel;
}

abbrev machine : Machine
machine = record {
  comm_memory = (client 5 digest).comm;
  resolved = some (2 ∷ 0 ∷ 130 ∷ 53 ∷ []);
  sock = pos 4;
  stack = stack 3;
  md = replicate 17 3;
  info_memory = info;
  registry = registry;
  device = device;
  thread_starts = true;
  buf = array;
  tunbuf = array;
  tunlen = 1;
  netlen = 0;
  started = pending;
  begun = waits;
  wakes = wakes;
}

abbrev routes : Routes
routes = record {
  table = some (pos 1);
  insufficient = true;
  larger_table = some (pos 2);
  no_error = true;
}

abbrev blank : Config
blank = record {
  sinfo = record { server_name = []; server_port = 0 };
  uinfo = record { user_name = []; md5 = [] };
  tunaddr = 0;
}

main_program-crashes_example :
    let unresolved = record machine { resolved = none } in
    (i : Initialized) × (initialize
        (λ a. 0)
        (stack 1)
        unresolved
        (record { tun = wild; comm = wild })
        blank
      ≡ some i)
    × (i.ret ≡ some (negsuc 0))
    × (i.client.comm ≡ deleted)
    × (main_program (λ a. 0) (stack 1) worst unresolved 1 blank routes
        ≡ after_run i.client (cycle_with worst unresolved deleted i.client.tun))
    × (main_program (λ a. 0) (stack 1) worst unresolved 1 blank routes ≡ crashed)
main_program-crashes_example =
    main_program-crashes (λ a. 0) (stack 1) worst (record machine { resolved = none }) 1 blank
      routes refl refl refl (omega arith) registry-AllIdsFit (inl refl)

device_opens :
    (open_driver device).driver ≡ some (record { fd = pos 3; mtu = 1500; channel = channel })
unfolding open_driver open_file check_device
device_opens = refl

main_program-Delivers_example :
    let comm = connected_comm machine (md5_fast (stack 1) user_a 1) (2 ∷ 0 ∷ 130 ∷ 53 ∷ []) in
    let tun : TunDriver = record { fd = pos 3; mtu = 1500; channel = channel } in
    let table =
      build_timed_table
        (stack 3)
        (replicate 17 3)
        (book 5 digest)
        (md5_fast (stack 1) user_a 1)
        0 in
    (o : Outcome) × (main_program (λ a. 0) (stack 1) worst machine 1 blank routes ≡ looping o)
    × Delivers table o (gate table (start_gate (cycle_memory machine comm tun) pending waits) wakes)
main_program-Delivers_example =
    main_program-Delivers (λ a. 0) (stack 1) worst machine 1 blank routes (2 ∷ 0 ∷ 130 ∷ 53 ∷ [])
      (record { fd = pos 3; mtu = 1500; channel = channel }) (λ p. omega arith) refl refl refl refl
      device_opens (omega arith) registry-AllIdsFit
      (record {
        net_inner = array-size;
        tun_inner = array-size;
        buf_size = array-size;
        tunbuf_size = array-size;
        tunlen_some = omega arith;
        tunlen_fits = omega arith;
        netlen_fits = omega arith;
      })
      tt tt refl wakes-AllFit
