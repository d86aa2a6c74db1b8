-- ===== src/Tests/OldRuns.antt =====
-- The older code.
use s_vpn.Common.{
  ℕ, zero, suc, ◌<◌, ◌≡◌, refl, arith, List, [], ◌∷◌, replicate, IsBytes, are_bytes-IsBytes,
  length-replicate, true, false, none, some, map, ◌++◌,
}
use s_vpn.Common.Int.{pos, negsuc}
use s_vpn.Common.Control.{go_on}
use s_vpn.Crypt.{CodeTable, build_table}
use s_vpn.Crypt.Table.{IsCodeTable, build_table-IsCodeTable}
use s_vpn.Md5.{Md5Ctx}
use s_vpn.Tests.CryptRuns.{memory, digest, digest-IsBytes, memory-IsAllocated}
use s_vpn.Old.Table.{build_timed_table}
use s_vpn.Old.TableLaws.{HasSpace, build_timed_table-IsCodeTable, build_timed_table-same}
use s_vpn.Old.Release.{
  server_release, closes, frees_node, frees_list, frees_server, occupied, server_release-frees,
}
use s_vpn.Old.Client.Main.{linux_commands, osx_commands, linux_main, osx_main}
use s_vpn.Old.Client.MainLaws.{IsGood, mains-IsGood}
use s_vpn.Old.Client as Client
use s_vpn.Old.Client.Linux as Linux
use s_vpn.Old.Client.Whole.{HasBuffers}
use s_vpn.Old.Client.Packets.{Delivers, from_linux-Delivers}
use s_vpn.Old.Client.Threads.{
  Point, absent, blocked, testing, calling, ended, Process, gives, waits, release, stop_recv_thread,
  wait_recv_thread, Reaches,
}
use s_vpn.Old.Client.ThreadsLaws.{IsOn, release-Reaches_freed, stop_recv_thread-Reaches_wait}
use s_vpn.Old.Server.{Node, Server, add_client, remove_client}
use s_vpn.Old.ServerLaws.{remove_client-add_client}

abbrev pub stack : ℕ → Md5Ctx
stack b = record { count0 = b; count1 = 9; state = []; buffer = replicate 64 b }

abbrev dirty : CodeTable
dirty = record { encode = replicate 256 7; decode = replicate 256 170 }

pub replicate-IsBytes : (n b : ℕ) → b < 256 → IsBytes (replicate n b)
replicate-IsBytes zero b h i = omega arith
replicate-IsBytes (suc n) b h zero = h
replicate-IsBytes (suc n) b h (suc i) = replicate-IsBytes n b h i

pub space : (b : ℕ) → b < 256 → HasSpace (stack b) (replicate 17 b) memory
space b h = record {
  context = length-replicate 64 b;
  md_size = length-replicate 17 b;
  md_bytes = replicate-IsBytes 17 b h;
  table = memory-IsAllocated;
}

space' : HasSpace (stack 3) (replicate 17 3) dirty
space' = record {
  context = refl;
  md_size = refl;
  md_bytes = replicate-IsBytes 17 3 (omega arith);
  table = record { encode_size = refl; decode_size = refl };
}

build_timed_table-IsCodeTable_example :
    IsCodeTable (build_timed_table (stack 170) (replicate 17 170) memory digest 1234567)
build_timed_table-IsCodeTable_example =
    build_timed_table-IsCodeTable (stack 170) (replicate 17 170) memory digest 1234567
      (space 170 (omega arith)) refl

build_timed_table-same_example :
    build_timed_table (stack 170) (replicate 17 170) memory digest 1234567
    ≡ build_timed_table (stack 3) (replicate 17 3) dirty digest 1234567
build_timed_table-same_example =
    build_timed_table-same (stack 170) (stack 3) (replicate 17 170) (replicate 17 3) memory dirty
      digest 1234567 (space 170 (omega arith)) space' refl

abbrev psc : Client.SvpnClient
psc = record {
  sock_fd = pos 3;
  server_addr = 9 ∷ 9 ∷ [];
  tun_fd = pos 4;
  recv_thread_on = true;
  send_thread_on = false;
  table = build_table memory digest 6;
}

pub table_good : IsCodeTable psc.table
table_good =
    (build_table-IsCodeTable memory digest 6 memory-IsAllocated digest-IsBytes (omega arith)).0

abbrev pub loop : Client.Loop
loop = record {
  client = psc;
  buffer = replicate 4096 0;
  tmp_buffer = replicate 4096 0;
  recvc = pos 0;
  sendc = pos 0;
}

pub loop-HasBuffers : HasBuffers loop
loop-HasBuffers = record {
  tmp_size = length-replicate {A = ℕ} 4096 0;
  size = length-replicate {A = ℕ} 4096 0;
}

abbrev pub packet : List ℕ
packet = 0x45 ∷ 0 ∷ 0 ∷ 4 ∷ 255 ∷ []

from_linux-Delivers_example :
    (s' : Client.Loop) × (d : List ℕ) × (Linux.tun_part loop (some packet)
      ≡ go_on s' (Client.send_to d (9 ∷ 9 ∷ []) ∷ []))
    × Delivers loop loop packet d
from_linux-Delivers_example =
    from_linux-Delivers loop loop loop packet loop-HasBuffers loop-HasBuffers loop-HasBuffers
      table_good (are_bytes-IsBytes packet refl) refl refl (omega arith)

abbrev process : Point → Process
process p = record {
  psc = psc;
  freed = false;
  recv_thread = p;
  send_thread = ended;
  handle_thread = absent;
  open_fds = pos 4 ∷ pos 3 ∷ [];
}

-- Both threads with flags have them on.
abbrev process_on : Point → Process
process_on p = record (process p) {
  psc = record psc { send_thread_on = true };
  send_thread = blocked;
}

process-IsOn : (p : Point) → IsOn (process_on p)
process-IsOn p = record { present = refl; recv_on = refl; send_on = refl }

release-Reaches_freed_example :
    (t u : Process) × (release (some (process_on calling)) ≡ gives (pos 0) (some t))
    × Reaches t u
    × (u.freed ≡ true)
    × (u.recv_thread ≡ testing)
release-Reaches_freed_example =
    release-Reaches_freed (process_on calling) (process-IsOn calling) refl refl

stop_recv_thread-Reaches_wait_example :
    (t u : Process) × (stop_recv_thread (some (process calling)) ≡ gives (pos 0) (some t))
    × Reaches t u
    × (u.psc.recv_thread_on ≡ false)
    × (wait_recv_thread (some u) ≡ waits)
stop_recv_thread-Reaches_wait_example = stop_recv_thread-Reaches_wait (process calling) refl refl

abbrev node : Node
node = record { s_addr = 77; sin_port = 1; table = memory }

abbrev draft : Server
draft = record { client_count = 5; node_list = none ∷ none ∷ some node ∷ none ∷ none ∷ [] }

remove_client-add_client_example :
    let added =
      add_client (λ word. 16951488) (stack 3) (replicate 17 3) (some draft) 3 (49 ∷ []) digest 0 in
    (added.0 ≡ pos 0)
    × (add_client (λ word. 16951488) (stack 3) (replicate 17 3) added.1 3 (50 ∷ []) digest 1
        ≡ (negsuc 1, added.1))
    × (remove_client added.1 3 ≡ some draft)
remove_client-add_client_example =
    remove_client-add_client (λ word. 16951488) (stack 3) (replicate 17 3) draft 3 (49 ∷ []) digest
      (50 ∷ []) digest 0 1 (omega arith) refl

server_release-frees_example : server_release (some draft) (pos 4) (pos 3) ≡ (
  pos 0,
  closes (pos 4) ∷ closes (pos 3) ∷ map frees_node (occupied draft.client_count 0 draft.node_list)
      ++ frees_list ∷ frees_server ∷ [],
)
server_release-frees_example = server_release-frees draft (pos 4) (pos 3)

mains-IsGood_example :
    IsGood linux_commands
      (linux_main (λ a port. a) (stack 170) (replicate 17 170) (pos 3) (pos 0) (pos 4) (pos 0))
    × IsGood osx_commands (
        osx_main
          (λ a port. a)
          (stack 170)
          (replicate 17 170)
          (pos 3)
          (pos 0)
          (pos 4)
          (pos 0)
          (pos 0))
mains-IsGood_example =
    mains-IsGood (λ a port. a) (stack 170) (replicate 17 170) (space 170 (omega arith)) (pos 3)
      (pos 0) (pos 4) (pos 0) (pos 0) (pos 0)
