-- ===== src/Old/Windows/Program.antt =====
-- `Client` of old-code/old/win32/Wtaet/Client.cpp but for its cycle, and `main` of main.cpp. The test
-- program of miniLZO that `main` runs first is left out, and so is what it prints of the routes.
use s_vpn.Common.{
  ℕ, List, [], ◌∷◌, ◌++◌, ◌==◌, if◌then◌else◌, ◌&&◌, Bool, true, false, Option, none, some,
}
use s_vpn.Common.Int.{ℤ, pos, negsuc, is_zero}
use s_vpn.Fd.{FdEvent, opened, closed}
use s_vpn.Md5.{Md5Ctx}
use s_vpn.Old.Windows.Comm.{CommClient, Begun, new_comm, connect}
use s_vpn.Old.Windows.Tun.{TunDriver, Device, Started, open_driver}
use s_vpn.Old.Windows.Registry.{TunAdaptersInfo, Registry, Queried, query_tun_adapter_info}
use s_vpn.Old.Windows.Config.{Config, use_debug_config}
use s_vpn.Old.Windows.Cycle.{Cycle, Wake, Outcome, send_cycle}

-- What a pointer has: garbage, null, an object, or one that is deleted.
pub data Pointer (A : Type 0) : Type 0 where
  wild null deleted : Pointer A
  live : A → Pointer A

-- `Client`; `Running` is true from `Run` on.
pub record Client : Type 0 where
  pub tun : Pointer TunDriver
  pub comm : Pointer CommClient

-- What the calls of `Initialize` and `Run` meet, and the memory that they find.
pub record Machine : Type 0 where
  pub comm_memory : CommClient
  pub resolved : Option (List ℕ)
  pub sock : ℤ
  pub stack : Md5Ctx
  pub md : List ℕ
  pub info_memory : TunAdaptersInfo
  pub registry : Registry
  pub device : Device
  pub thread_starts : Bool
  pub buf : List ℕ
  pub tunbuf : List ℕ
  pub tunlen : ℕ
  pub netlen : ℕ
  pub started : Started
  pub begun : Begun
  pub wakes : List Wake

-- `ret` is `none` at the end of a function that returns no value.
pub record Initialized : Type 0 where
  pub ret : Option ℤ
  pub client : Client
  pub events : List FdEvent

-- From the call of `OpenDriver` on, with its result.
abbrev pub with_driver : CommClient → List FdEvent → Option TunDriver → Initialized
with_driver comm es none = record {
  ret = some (negsuc 0);
  client = record { tun = null; comm = deleted };
  events = es;
}
with_driver comm es (some tun) = record {
  ret = none;
  client = record { tun = live tun; comm = live comm };
  events = es;
}

-- `OpenDriver` queries the adapters first: `none` is undefined behaviour there.
abbrev pub with_adapters : Machine → CommClient → Option Queried → Option Initialized
with_adapters m comm none = none
with_adapters m comm (some (info, es)) =
    let o = open_driver m.device in some (with_driver comm (es ++ o.events) o.driver)

-- `Initialize`; the result of `InitEnvironment` is not read.
module _ (inet_addr : List ℕ → ℕ) (md5_stack : Md5Ctx) where
  unfoldable pub initialize : Machine → Client → Config → Option Initialized
  initialize m client conf =
      let conf' = use_debug_config inet_addr md5_stack conf in
      let (ret, comm) =
        connect m.stack m.md (new_comm m.comm_memory) m.resolved m.sock conf'.uinfo.md5 in
      if is_zero ret
      then with_adapters m comm (query_tun_adapter_info m.info_memory m.registry)
      else some
          (record { ret = some (negsuc 0); client = record client { comm = deleted }; events = [] })

-- The end of `Run` or of `main`: a value, undefined behaviour, or the cycle, for which it waits.
pub data Exit : Type 0 where
  returned : ℤ → Exit
  crashed : Exit
  looping : Outcome → Exit

-- The state of `SendCycle` before its first statement.
abbrev pub cycle_memory : Machine → CommClient → TunDriver → Cycle
cycle_memory m comm tun = record {
  tun = tun;
  comm = comm;
  buf = m.buf;
  tunbuf = m.tunbuf;
  tunlen = m.tunlen;
  netlen = m.netlen;
}

-- `SendCycle` from its start, which uses both objects.
abbrev pub cycle_with : (List ℕ → ℕ) → Machine → Pointer CommClient → Pointer TunDriver → Exit
cycle_with compressed_length m (live comm) (live tun) =
    looping (send_cycle compressed_length (cycle_memory m comm tun) m.started m.begun m.wakes)
cycle_with compressed_length m (live comm) wild = crashed
cycle_with compressed_length m (live comm) null = crashed
cycle_with compressed_length m (live comm) deleted = crashed
cycle_with compressed_length m wild tun = crashed
cycle_with compressed_length m null tun = crashed
cycle_with compressed_length m deleted tun = crashed

-- `Run`: where the thread is not made, the wait fails at once.
abbrev pub run : (List ℕ → ℕ) → Machine → Client → Exit
run compressed_length m client =
    if m.thread_starts
    then cycle_with compressed_length m client.comm client.tun
    else returned (pos 0)

abbrev pub can_delete : {A : Type 0} → Pointer A → Bool
can_delete wild = false
can_delete null = true
can_delete deleted = false
can_delete (live a) = true

-- `Finalize`
abbrev pub finalize : Client → Exit
finalize client =
    if can_delete client.tun && can_delete client.comm then returned (pos 0) else crashed

-- The results of `malloc` and of `GetIpForwardTable` in `main`.
pub record Routes : Type 0 where
  pub table : Option ℤ
  pub insufficient : Bool
  pub larger_table : Option ℤ
  pub no_error : Bool

-- The last part: the value that `main` returns there, if any, and the blocks.
abbrev pub print_table : Bool → List FdEvent → ℤ → Option ℤ × List FdEvent
print_table no_error es table = (if no_error then none else some (pos 1), es ++ closed table ∷ [])

abbrev pub print_larger : Bool → ℤ → Option ℤ → Option ℤ × List FdEvent
print_larger no_error table none = (some (pos 1), opened table ∷ closed table ∷ [])
print_larger no_error table (some larger) =
    print_table no_error (opened table ∷ closed table ∷ opened larger ∷ []) larger

abbrev pub print_routes_into : Routes → Option ℤ → Option ℤ × List FdEvent
print_routes_into r none = (some (pos 1), [])
print_routes_into r (some table) =
    if r.insufficient
    then print_larger r.no_error table r.larger_table
    else print_table r.no_error (opened table ∷ []) table

abbrev pub print_routes : Routes → Option ℤ × List FdEvent
print_routes r = print_routes_into r r.table

abbrev pub after_run : Client → Exit → Exit
after_run client (returned ret) = finalize client
after_run client crashed = crashed
after_run client (looping o) = looping o

module _ (inet_addr : List ℕ → ℕ) (md5_stack : Md5Ctx) (compressed_length : List ℕ → ℕ) where
  -- `cl.Initialize(cfg); cl.Run(); cl.Finalize();`
  abbrev pub run_client : Machine → Option Initialized → Exit
  run_client m none = crashed
  run_client m (some i) = after_run i.client (run compressed_length m i.client)

  abbrev pub main_after_routes : Machine → ℕ → Config → Option ℤ → Exit
  main_after_routes m argc cfg (some ret) = returned ret
  main_after_routes m argc cfg none =
      if argc == 11
      then returned (pos 0)
      else run_client m (initialize inet_addr md5_stack m (record { tun = wild; comm = wild }) cfg)

  -- `main`
  unfoldable pub main_program : Machine → ℕ → Config → Routes → Exit
  main_program m argc cfg routes = main_after_routes m argc cfg (print_routes routes).0
