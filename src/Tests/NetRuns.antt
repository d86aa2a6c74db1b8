-- ===== src/Tests/NetRuns.antt =====
-- A packet of user 6 from its tunnel over the net to the server's, and the client's loop at two rounds.
use s_vpn.Common.{◌⊎◌}
use s_vpn.Net.{Flying}
use s_vpn.Net.Sound.{IsUp, IsDown}
use s_vpn.Common.{
  ℕ, ◌≡◌, refl, sym, ◌∙◌, ap, arith, List, [], ◌∷◌, byte_at, replicate, get_or-set,
  length-replicate, get_or-replicate, ◌==◌, ==_iff, Bool-cases, inl, inr, true, none, some,
}
use s_vpn.Common.Int.{pos}
use mathlib.Core.List.{Memᴰ}
use mathlib.Core.Path.{subst}
use mathlib.Core.Option.{some-injective, none-ne-some}
use s_vpn.Crypt.{build_table}
use s_vpn.Server.Loop as Server
use s_vpn.Client.Loop as Client
use s_vpn.Client.Relay.{relay}
use s_vpn.Client.Refines.{IsClient}
use s_vpn.Common.Control.{Ensures}
use s_vpn.Client.RefinesLoop.{Refines}
use s_vpn.Client.Counts.{Counted, handle_thread-Relays}
use s_vpn.Traffic.Uplink.{SharesPassword}
use s_vpn.Net.{World, Reach}
use s_vpn.Net.Clients.{AreApart}
use s_vpn.Net.Intact.{IsStart, plan_of, reach-AreIntact}
use s_vpn.Tests.CryptRuns.{memory, digest}
use s_vpn.Tests.RelayRuns.{start, start-HasArrays}
use s_vpn.Tests.ServerRuns.{node, packet, packet-IsPacketOf, shared, client}
use s_vpn.Net.Intact.{start-IsIntact}
use s_vpn.Net.Delivery.{goes_up}

abbrev server_addr : List ℕ
server_addr = 9 ∷ 9 ∷ []

abbrev address : ℕ → List ℕ
address uid = 2 ∷ uid ∷ []

abbrev before : ℕ → List ℕ
before uid = 1 ∷ 1 ∷ []

abbrev whole_client : Client.Loop
whole_client = record client { buffer = replicate 4096 0; tmp_buffer = replicate 4096 0 }

whole_client-IsClient : IsClient (build_table memory digest 6) server_addr whole_client
whole_client-IsClient = record {
  table = refl;
  server = refl;
  buffer_size = length-replicate {A = ℕ} 4096 0;
  tmp_size = length-replicate {A = ℕ} 4096 0;
}

abbrev outward : Client.Round
outward = record {
  selected = Client.ready true true;
  tun_read = some packet;
  sent = pos 20;
  received = some (9 ∷ replicate 19 0);
}

abbrev interrupted : Client.Round
interrupted = record outward { selected = Client.interrupted }

handle_thread-Relays_example :
    let ct = build_table memory digest 6 in
    let end = Client.handle_thread (outward ∷ interrupted ∷ []) whole_client in
    Refines ct server_addr end (relay ct server_addr (outward ∷ interrupted ∷ []))
    × Ensures (Counted 8192 8192) end
handle_thread-Relays_example =
    handle_thread-Relays (build_table memory digest 6) server_addr (outward ∷ interrupted ∷ [])
      whole_client whole_client-IsClient
      ((omega arith, (omega arith, omega arith)), ((omega arith, (omega arith, omega arith)), tt))
      refl refl (omega arith)

abbrev at_first : World
at_first = record {
  server = start;
  clients = λ _. whole_client;
  flying = [];
  client_offers = [];
  server_offers = [];
  client_writes = [];
  server_writes = [];
}

only_six :
    (uid : ℕ) (n : Server.ClientNode)
    → Server.client_at start.server uid ≡ some n
    → (6 ≡ uid) × (node ≡ n)
only_six uid n e = elim (Bool-cases (6 == uid)) [
  | inl same ↦ (
    (==_iff 6 uid).0 same,
    some-injective node n
        (rw same at (sym (get_or-set (replicate 256 none) 6 uid (some node) none) ∙ e)),
  )
  | inr differs ↦ absurd (
      none-ne-some n (
        sym (get_or-replicate 256 uid none)
        ∙ rw differs at (sym (get_or-set (replicate 256 none) 6 uid (some node) none) ∙ e)))
]

at_first-IsStart : IsStart (λ _. digest) before server_addr at_first
at_first-IsStart = record {
  arrays = start-HasArrays;
  clients = λ uid. whole_client-IsClient;
  users = λ uid n e.
      let (six, same) = only_six uid n e in
      (
        subst (λ k. SharesPassword digest k (build_table memory digest 6) n.table) six
            (subst (λ n. SharesPassword digest 6 (build_table memory digest 6) n.table) same
              shared),
        ap (λ n. n.addr) (sym same),
      );
  no_flying = refl;
  no_server_writes = refl;
  no_client_writes = refl;
}

plan-AreApart : AreApart (plan_of (λ _. digest) address before server_addr at_first)
plan-AreApart = record {
  clients = λ u v e. ap (λ bs. byte_at bs 1) e;
  server = λ u e. absurd (omega (arith, ap (λ bs. byte_at bs 0) e));
  at_first = λ u v e. absurd (omega (arith, ap (λ bs. byte_at bs 0) e));
  server_at_first = λ u e. absurd (omega (arith, ap (λ bs. byte_at bs 0) e));
}

-- A packet of the user gets to the server's tunnel.
delivered :
    (u : World) × Reach address server_addr at_first u
    × Memᴰ packet u.server_writes
    × (Server.client_at u.server.server 6 ≡ some (record node { addr = address 6 }))
delivered =
    goes_up (plan_of (λ _. digest) address before server_addr at_first) at_first
      (start-IsIntact (λ _. digest) address before server_addr at_first at_first-IsStart) 6 node
      refl packet packet-IsPacketOf (omega arith)

reach-AreIntact_example :
    ((p : List ℕ)
      → Memᴰ p delivered.0.server_writes
      → (uid : ℕ) × Memᴰ (uid, p) delivered.0.client_offers
        × (Server.is_source p (192 ∷ 168 ∷ 3 ∷ 1 ∷ []) uid ≡ true))
    × ((uid : ℕ) (p : List ℕ)
        → Memᴰ (uid, p) delivered.0.client_writes
        → Memᴰ p delivered.0.server_offers × (byte_at p 19 ≡ uid))
    × ((d : Flying)
        → Memᴰ d delivered.0.flying
        → IsUp
            (plan_of (λ _. digest) address before server_addr at_first)
            delivered.0.client_offers
            d
          ⊎ IsDown
              (plan_of (λ _. digest) address before server_addr at_first)
              delivered.0.server_offers
              d)
reach-AreIntact_example =
    reach-AreIntact (λ _. digest) address before server_addr at_first delivered.0 plan-AreApart
      at_first-IsStart delivered.1
