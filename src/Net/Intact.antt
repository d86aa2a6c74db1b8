-- ===== src/Net/Intact.antt =====
-- The packets that the programs wrote to their tunnels, against those that the tunnels had, in every run
-- of the net.
use s_vpn.Common.{◌⊎◌}
use s_vpn.Net.{Flying}
use s_vpn.Net.Sound.{IsUp, IsDown}
use s_vpn.Common.{ℕ, ◌≡◌, refl, sym, ◌∙◌, ap, List, [], byte_at, inr, true, some}
use mathlib.Core.List.{Memᴰ}
use mathlib.Core.Path.{subst}
use s_vpn.Net.{World, Advance, server_moves, client_moves}
use s_vpn.Net.Sound.{Plan, IsPeer}
use s_vpn.Net.Clients.{AreApart}
use s_vpn.Net.Invariant.{IsIntact}
use s_vpn.Net.ServerStep.{server-IsIntact}
use s_vpn.Net.ClientStep.{client-IsIntact}
use s_vpn.Net.{Reach, here, later}
use s_vpn.Server.Loop.{ClientNode, client_at, is_source}
use s_vpn.Client.Refines.{IsClient}
use s_vpn.Server.Refines.{HasArrays}
use s_vpn.Traffic.Uplink.{SharesPassword}
use s_vpn.Crypt.Table.{IsCodeTable, build_table-IsCodeTable, build_table-overwrites}
use s_vpn.Net.Sound.{IsPeer}

Advance-IsIntact :
    {plan : Plan} {w u : World}
    → AreApart plan
    → IsIntact plan w
    → Advance plan.address plan.server_addr w u
    → IsIntact plan u
Advance-IsIntact {plan} {w} {u} apart intact (server_moves r t es receives offer ends e) =
    subst (IsIntact plan) (sym e) (server-IsIntact plan apart w intact r t es receives offer ends)
Advance-IsIntact {plan} {w} {u} apart intact
      (client_moves uid node r t es known receives offer ends e) =
    subst (IsIntact plan) (sym e)
      (client-IsIntact plan apart w intact uid node r t es known receives offer ends)

pub Reach-IsIntact :
    {plan : Plan} {w : World} (u : World)
    → AreApart plan
    → IsIntact plan w
    → Reach plan.address plan.server_addr w u
    → IsIntact plan u
Reach-IsIntact u apart intact here = intact
Reach-IsIntact u apart intact (later {u = v} reach step) =
    Advance-IsIntact apart (Reach-IsIntact v apart intact reach) step

-- At the start nothing was sent, offered or written; a user's client and the server's entry for the user
-- have tables built from one password, and the server has the address `before uid` for the user.
pub record IsStart (md before : ℕ → List ℕ) (server_addr : List ℕ) (w : World) : Type 0 where
  pub arrays : HasArrays w.server
  pub clients : (uid : ℕ) → IsClient (w.clients uid).client.table server_addr (w.clients uid)
  pub users :
      (uid : ℕ) (node : ClientNode)
      → client_at w.server.server uid ≡ some node
      → SharesPassword (md uid) uid (w.clients uid).client.table node.table
        × (node.addr ≡ before uid)
  pub no_flying : w.flying ≡ []
  pub no_server_writes : w.server_writes ≡ []
  pub no_client_writes : w.client_writes ≡ []

module _ (md address before : ℕ → List ℕ) (server_addr : List ℕ) (w : World) where
  abbrev pub plan_of : Plan
  plan_of = record {
    table = λ uid. (w.clients uid).client.table;
    address = address;
    before = before;
    server_addr = server_addr;
    net = w.server.server.local_addr;
  }

  start-IsPeer :
      (uid : ℕ) (node : ClientNode)
      → SharesPassword (md uid) uid (w.clients uid).client.table node.table
      → node.addr ≡ before uid
      → IsPeer plan_of uid node
  start-IsPeer uid node shared at_first =
      let (good, identity) =
        build_table-IsCodeTable shared.memory (md uid) uid shared.allocated shared.digest_bytes
          shared.user_number in
      record {
        user = record {
          good = subst IsCodeTable (sym shared.client_table) good;
          identity = ap (λ t. byte_at t.encode 69) shared.client_table ∙ identity;
        };
        table =
            shared.server_table
            ∙ build_table-overwrites shared.memory' shared.memory (md uid) uid shared.allocated'
                shared.allocated shared.digest_bytes shared.user_number
            ∙ sym shared.client_table;
        addr = inr at_first;
      }

  pub start-IsIntact : IsStart md before server_addr w → IsIntact plan_of w
  start-IsIntact start = record {
    peers = λ uid node e.
        let (shared, at_first) = start.users uid node e in start-IsPeer uid node shared at_first;
    arrays = start.arrays;
    net = refl;
    clients = start.clients;
    flying = λ d m. elim (subst (λ ds. Memᴰ d ds) start.no_flying m) [ ];
    server_writes = λ p m. elim (subst (λ ps. Memᴰ p ps) start.no_server_writes m) [ ];
    client_writes = λ uid p m. elim (subst (λ ps. Memᴰ (uid, p) ps) start.no_client_writes m) [ ];
  }

  -- One server and the clients of its users run in any order over a net that may lose, repeat and
  -- reorder datagrams but makes none up. At the start nothing is on its way or written; each user's
  -- client and the server's entry for the user have tables built from one digest of bytes and the
  -- user's number below 256; and the buffers have 4096 bytes. The addresses of the clients' sockets
  -- differ from each other, from the server's, and from the ones that the server has for the users
  -- at first. The tunnels have packets of bytes, of 20 to 4096 bytes, the clients' begin with 0x45.
  -- Then at any time each packet that the server wrote to its tunnel is one that the tunnel of some
  -- client had, with the server's net and the client's user for its source; each packet that a client
  -- wrote to its tunnel is one that the server's tunnel had for the client's user; and each datagram
  -- that was sent has the codes, by a user's table, of a packet that a tunnel had, and goes from the
  -- user's client to the server, or from the server to the user at the address of the user's client
  -- or the one that the server had at first.
  pub reach-AreIntact :
      (u : World)
      → AreApart plan_of
      → IsStart md before server_addr w
      → Reach address server_addr w u
      → ((p : List ℕ)
          → Memᴰ p u.server_writes
          → (uid : ℕ) × Memᴰ (uid, p) u.client_offers
            × (is_source p w.server.server.local_addr uid ≡ true))
        × ((uid : ℕ) (p : List ℕ)
            → Memᴰ (uid, p) u.client_writes
            → Memᴰ p u.server_offers × (byte_at p 19 ≡ uid))
        × ((d : Flying)
            → Memᴰ d u.flying
            → IsUp plan_of u.client_offers d ⊎ IsDown plan_of u.server_offers d)
  reach-AreIntact u apart start reach =
      let intact = Reach-IsIntact u apart (start-IsIntact start) reach in
      (intact.server_writes, intact.client_writes, intact.flying)
