-- ===== src/Net/Invariant.antt =====
-- What stays true of the net: of the server's users, of the clients, of the datagrams and of the
-- packets written so far.
use s_vpn.Common.{ℕ, ◌≡◌, ◌⊎◌, List, ◌++◌, byte_at, true}
use mathlib.Core.List.{Memᴰ}
use mathlib.Core.List.Memᴰ
use s_vpn.Server.Loop as Server
use s_vpn.Server.Refines as ServerView
use s_vpn.Client.Refines as ClientView
use s_vpn.Net.{Flying, World}
use s_vpn.Net.Sound.{Plan, ArePeers, IsUp, IsDown}

pub record IsIntact (plan : Plan) (w : World) : Type 0 where
  pub peers : ArePeers plan (ServerView.peers_of w.server)
  pub arrays : ServerView.HasArrays w.server
  pub net : w.server.server.local_addr ≡ plan.net
  pub clients : (uid : ℕ) → ClientView.IsClient (plan.table uid) plan.server_addr (w.clients uid)
  pub flying :
      (d : Flying) → Memᴰ d w.flying → IsUp plan w.client_offers d ⊎ IsDown plan w.server_offers d
  pub server_writes :
      (p : List ℕ)
      → Memᴰ p w.server_writes
      → (uid : ℕ) × Memᴰ (uid, p) w.client_offers × (Server.is_source p plan.net uid ≡ true)
  pub client_writes :
      (uid : ℕ) (p : List ℕ)
      → Memᴰ (uid, p) w.client_writes
      → Memᴰ p w.server_offers × (byte_at p 19 ≡ uid)

-- More offers do no harm.
module _ (plan : Plan) where
  pub more-IsUp :
      (new ups : List (ℕ × List ℕ)) (d : Flying) → IsUp plan ups d → IsUp plan (new ++ ups) d
  more-IsUp new ups d up = record {
    uid = up.uid;
    packet = up.packet;
    user = up.user;
    to_server = up.to_server;
    sender = up.sender;
    offer = Memᴰ.append_right new up.offer;
    is_packet = up.is_packet;
    magic = up.magic;
    codes = up.codes;
  }

  pub more-IsDown :
      (new downs : List (List ℕ)) (d : Flying) → IsDown plan downs d → IsDown plan (new ++ downs) d
  more-IsDown new downs d down = record {
    uid = down.uid;
    packet = down.packet;
    user = down.user;
    receiver = down.receiver;
    offer = Memᴰ.append_right new down.offer;
    is_packet = down.is_packet;
    destination = down.destination;
    codes = down.codes;
  }
