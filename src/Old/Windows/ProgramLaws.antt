-- ===== src/Old/Windows/ProgramLaws.antt =====
-- `main` of the Windows client, from its start to the cycle.
use s_vpn.Common.{
  ℕ, ◌+◌, ◌/◌, ◌≤◌, ◌≡◌, ◌⊎◌, refl, sym, ◌∙◌, ap, ap₂, arith, List, [], ◌++◌, length, ◌==◌,
  if◌then◌else◌, Option-cases, inl, inr, true, false, Option, none, some,
}
use mathlib.Core.Option.{none-ne-some}
use s_vpn.Common.Int.{pos, negsuc, ltb_ℤ}
use s_vpn.Md5.{Md5Ctx, md5_fast}
use s_vpn.Old.Table.{build_timed_table}
use s_vpn.Old.Windows.Comm.{CommClient, new_comm, next_port, connect, connect_to}
use s_vpn.Old.Windows.Tun.{TunDriver, open_driver}
use s_vpn.Old.Windows.Registry.{max_tun_adapters, Queried, query_tun_adapter_info}
use s_vpn.Old.Windows.RegistryTally.{is_instance, AllIdsFit, number, Tallies}
use s_vpn.Old.Windows.RegistryLaws.{sub_keys_of, query_tun_adapter_info-Tallies}
use s_vpn.Old.Windows.Config.{Config, user_a}
use s_vpn.Old.Windows.Cycle.{Outcome, send_cycle}
use s_vpn.Old.Windows.Gate.{gate}
use s_vpn.Old.Windows.Matches.{FitsDatagram, FitsStarted, AllFit}
use s_vpn.Old.Windows.TunRound.{Delivers}
use s_vpn.Old.Windows.Laws.{HasArrays, start_gate, send_cycle-Delivers}
use s_vpn.Old.Windows.Program.{
  wild, deleted, live, Client, Machine, Initialized, with_driver, with_adapters, initialize,
  looping, crashed, cycle_with, cycle_memory, after_run, returned, Routes, print_routes, run_client,
  main_program,
}

-- The object after `Connect` to the address, with the password's digest.
abbrev pub connected_comm : Machine → List ℕ → List ℕ → CommClient
connected_comm m md5 addr = record (new_comm m.comm_memory) {
  server_addr = addr;
  server_addr2 = next_port addr;
  client_sock = m.sock;
  code_book = build_timed_table m.stack m.md m.comm_memory.code_book md5 0;
}

connect-resolved :
    (m : Machine) (md5 addr : List ℕ)
    → m.resolved ≡ some addr
    → connect m.stack m.md (new_comm m.comm_memory) m.resolved m.sock md5
      ≡ (pos 0, connected_comm m md5 addr)
unfolding connect connect_to
connect-resolved m md5 addr resolved =
    ap (λ r. connect m.stack m.md (new_comm m.comm_memory) r m.sock md5) resolved

connect-unresolved :
    (m : Machine) (md5 : List ℕ)
    → m.resolved ≡ none
    → connect m.stack m.md (new_comm m.comm_memory) m.resolved m.sock md5
      ≡ (negsuc 0, new_comm m.comm_memory)
unfolding connect connect_to
connect-unresolved m md5 resolved =
    ap (λ r. connect m.stack m.md (new_comm m.comm_memory) r m.sock md5) resolved

-- A query that meets no more instances than the array takes comes to its end.
query-ends :
    (o : Option Queried) (adapters instances : ℕ)
    → Tallies 0 adapters instances o
    → instances ≤ max_tun_adapters
    → (q : Queried) × (o ≡ some q)
query-ends none adapters instances h le = absurd (omega arith)
query-ends (some q) adapters instances h le = (q, refl)

module _ (inet_addr : List ℕ → ℕ) (md5_stack : Md5Ctx) (compressed_length : List ℕ → ℕ) where
  -- What `Initialize` leaves where the name has no address or the tunnel does not open.
  initialize-deletes :
      (m : Machine) (client : Client) (cfg : Config)
      → number is_instance (sub_keys_of m.registry) ≤ max_tun_adapters
      → AllIdsFit (sub_keys_of m.registry)
      → (m.resolved ≡ none) ⊎ ((open_driver m.device).driver ≡ none)
      → (i : Initialized) × (initialize inet_addr md5_stack m client cfg ≡ some i)
        × (i.ret ≡ some (negsuc 0))
        × (i.client.comm ≡ deleted)
  unfolding initialize
  initialize-deletes m client cfg few fit fails = elim (Option-cases m.resolved) [
    | inl unresolved ↦ (
      record { ret = some (negsuc 0); client = record client { comm = deleted }; events = [] },
      rw (connect-unresolved m (md5_fast md5_stack user_a 1) unresolved) refl,
      refl,
      refl,
    )
    | inr (addr, resolved) ↦
        let comm = connected_comm m (md5_fast md5_stack user_a 1) addr in
        let (q, ended) =
          query-ends (query_tun_adapter_info m.info_memory m.registry) _ _
            (query_tun_adapter_info-Tallies m.info_memory m.registry fit) few in
        (
          with_driver comm (q.1 ++ (open_driver m.device).events) none,
          rw (connect-resolved m (md5_fast md5_stack user_a 1) addr resolved) (
              ap (with_adapters m comm) ended
              ∙ ap (λ d. some (with_driver comm (q.1 ++ (open_driver m.device).events) d))
                  (closed_tunnel addr resolved fails)),
          refl,
          refl,
        )
  ]
    where
      closed_tunnel :
          (addr : List ℕ)
          → m.resolved ≡ some addr
          → (m.resolved ≡ none) ⊎ ((open_driver m.device).driver ≡ none)
          → (open_driver m.device).driver ≡ none
      closed_tunnel addr resolved (inl unresolved) =
          absurd (none-ne-some addr (sym unresolved ∙ resolved))
      closed_tunnel addr resolved (inr closed) = closed

  run_client-crashes :
      (m : Machine) (i : Initialized)
      → m.thread_starts ≡ true
      → i.client.comm ≡ deleted
      → run_client inet_addr md5_stack compressed_length m (some i) ≡ crashed
  run_client-crashes m i starts h =
      ap
        (λ b. after_run i.client (
          if b
          then cycle_with compressed_length m i.client.comm i.client.tun
          else returned (pos 0)))
        starts
      ∙ ap (λ p. after_run i.client (cycle_with compressed_length m p i.client.tun)) h

  -- Where `main` gets past the routes and its arguments and the thread is made, at most 7 subkeys of
  -- the component have an instance's id and no such id has more than 115 characters: if the server's
  -- name has no address, or the tunnel cannot be opened, `Initialize` comes to its end with -1 and
  -- its object for the socket deleted, and `main` goes on to run the cycle, which uses this object and
  -- so is undefined behaviour.
  pub main_program-crashes :
      (m : Machine) (argc : ℕ) (cfg : Config) (routes : Routes)
      → (print_routes routes).0 ≡ none
      → (argc == 11) ≡ false
      → m.thread_starts ≡ true
      → number is_instance (sub_keys_of m.registry) ≤ max_tun_adapters
      → AllIdsFit (sub_keys_of m.registry)
      → (m.resolved ≡ none) ⊎ ((open_driver m.device).driver ≡ none)
      → (i : Initialized) × (initialize inet_addr md5_stack m
            (record { tun = wild; comm = wild })
            cfg
          ≡ some i)
        × (i.ret ≡ some (negsuc 0))
        × (i.client.comm ≡ deleted)
        × (main_program inet_addr md5_stack compressed_length m argc cfg routes
            ≡ after_run i.client (cycle_with compressed_length m deleted i.client.tun))
        × (main_program inet_addr md5_stack compressed_length m argc cfg routes ≡ crashed)
  unfolding main_program
  main_program-crashes m argc cfg routes printed few_args starts few fit fails =
      let (i, made, ret, gone) =
        initialize-deletes m (record { tun = wild; comm = wild }) cfg few fit fails in
      let crash =
        ap (run_client inet_addr md5_stack compressed_length m) made
        ∙ run_client-crashes m i starts gone in
      (i, made, ret, gone, rw (printed, few_args) crash, rw (printed, few_args) crash)

  -- What `Initialize` makes where everything opens.
  initialize-opens :
      (m : Machine) (client : Client) (cfg : Config) (addr : List ℕ) (tun : TunDriver)
      → m.resolved ≡ some addr
      → (open_driver m.device).driver ≡ some tun
      → number is_instance (sub_keys_of m.registry) ≤ max_tun_adapters
      → AllIdsFit (sub_keys_of m.registry)
      → (i : Initialized) × (initialize inet_addr md5_stack m client cfg ≡ some i)
        × (i.client.tun ≡ live tun)
        × (i.client.comm ≡ live (connected_comm m (md5_fast md5_stack user_a 1) addr))
  unfolding initialize
  initialize-opens m client cfg addr tun resolved opens few fit =
      let comm = connected_comm m (md5_fast md5_stack user_a 1) addr in
      let (q, ended) =
        query-ends (query_tun_adapter_info m.info_memory m.registry) _ _
          (query_tun_adapter_info-Tallies m.info_memory m.registry fit) few in
      (
        with_driver comm (q.1 ++ (open_driver m.device).events) (some tun),
        rw (connect-resolved m (md5_fast md5_stack user_a 1) addr resolved) (
            ap (with_adapters m comm) ended
            ∙ ap (λ d. some (with_driver comm (q.1 ++ (open_driver m.device).events) d)) opens),
        refl,
        refl,
      )

  run_client-loops :
      (m : Machine) (i : Initialized) (tun : TunDriver) (comm : CommClient)
      → m.thread_starts ≡ true
      → i.client.tun ≡ live tun
      → i.client.comm ≡ live comm
      → run_client inet_addr md5_stack compressed_length m (some i)
        ≡ looping (send_cycle compressed_length (cycle_memory m comm tun) m.started m.begun m.wakes)
  run_client-loops m i tun comm starts has_tun has_comm =
      ap
        (λ b. after_run i.client (
          if b
          then cycle_with compressed_length m i.client.comm i.client.tun
          else returned (pos 0)))
        starts
      ∙ ap₂ (λ p q. after_run i.client (cycle_with compressed_length m p q)) has_comm has_tun

  -- Where `main` gets past the routes and its arguments, the thread is made, the server's name has an
  -- address, the tunnel opens, and at most 7 subkeys of the component have an instance's id: `main`
  -- waits for a cycle that does what the gate does, with the table of the digest of "a", the timestamp
  -- 0, and the server as its peer. The conditions on the memory of the cycle, `tunlen` and `netlen`
  -- among it, on the first reads, the wakes and LZO are those of `send_cycle-Delivers`; no subkey's
  -- instance's id has more than 115 characters.
  pub main_program-Delivers :
      (m : Machine) (argc : ℕ) (cfg : Config) (routes : Routes) (addr : List ℕ) (tun : TunDriver)
      → ((p : List ℕ) → compressed_length p ≤ length p + length p / 16 + 67)
      → (print_routes routes).0 ≡ none
      → (argc == 11) ≡ false
      → m.thread_starts ≡ true
      → m.resolved ≡ some addr
      → (open_driver m.device).driver ≡ some tun
      → number is_instance (sub_keys_of m.registry) ≤ max_tun_adapters
      → AllIdsFit (sub_keys_of m.registry)
      → HasArrays (cycle_memory m (connected_comm m (md5_fast md5_stack user_a 1) addr) tun)
      → FitsStarted m.started
      → FitsDatagram m.begun.at_once
      → ltb_ℤ (pos 0) m.begun.ret ≡ false
      → AllFit m.wakes
      → (o : Outcome) × (main_program inet_addr md5_stack compressed_length m argc cfg routes
          ≡ looping o)
        × Delivers
            (build_timed_table m.stack m.md m.comm_memory.code_book (md5_fast md5_stack user_a 1) 0)
            o
            (gate
              (build_timed_table m.stack m.md m.comm_memory.code_book
                (md5_fast md5_stack user_a 1)
                0)
              (start_gate
                (cycle_memory m (connected_comm m (md5_fast md5_stack user_a 1) addr) tun)
                m.started
                m.begun)
              m.wakes)
  unfolding main_program
  main_program-Delivers m argc cfg routes addr tun lzo_bound printed few_args starts resolved opens
        few fit arrays fits fits_net ret all =
      let comm = connected_comm m (md5_fast md5_stack user_a 1) addr in
      let (i, made, has_tun, has_comm) =
        initialize-opens m (record { tun = wild; comm = wild }) cfg addr tun resolved opens few
          fit in
      (
        send_cycle compressed_length (cycle_memory m comm tun) m.started m.begun m.wakes,
        rw (printed, few_args)
            (ap (run_client inet_addr md5_stack compressed_length m) made
              ∙ run_client-loops m i tun comm starts has_tun has_comm),
        send_cycle-Delivers compressed_length (cycle_memory m comm tun) m.started m.begun m.wakes
            lzo_bound arrays fits fits_net ret all,
      )
