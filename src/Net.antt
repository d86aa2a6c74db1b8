-- ===== src/Net.antt =====
-- The server of src/server/svpn_server.c, the clients of src/client/svpn_client.c and the net between
-- them: a step is a round of one of them, in any order. The net may lose, repeat and reorder datagrams,
-- but makes none up: what arrives was sent to that address at some time.
use s_vpn.Common.{
  ℕ, ◌+◌, ◌≤◌, ◌≡◌, ◌⊎◌, List, [], ◌∷◌, ◌++◌, length, byte_at, IsBytes, ◌==◌, if◌then◌else◌, Option,
  none, some,
}
use mathlib.Core.List.{Memᴰ}
use s_vpn.Common.Control.{Control, go_on, skip}
use s_vpn.Server.Loop as Server
use s_vpn.Client.Loop as Client
use s_vpn.Traffic.Packet.{Packet, to_tun, to_net}
use s_vpn.Server.Refines as ServerView
use s_vpn.Client.Refines as ClientView
pub mod Sound
pub mod Clients
pub mod Invariant
pub mod ServerStep
pub mod ClientStep
pub mod Intact
pub mod Rounds
pub mod Delivery
pub mod Exchange

pub record Flying : Type 0 where
  pub bytes : List ℕ
  pub from : List ℕ
  pub to : List ℕ

-- The programs, by the user's number for the clients; the datagrams ever sent; the packets that the
-- tunnels had for the programs, and those that the programs wrote to them.
pub record World : Type 0 where
  pub server : Server.Loop
  pub clients : ℕ → Client.Loop
  pub flying : List Flying
  pub client_offers : List (ℕ × List ℕ)
  pub server_offers : List (List ℕ)
  pub client_writes : List (ℕ × List ℕ)
  pub server_writes : List (List ℕ)

-- A round that does not end the loop.
abbrev pub Ends : {S E : Type 0} → Control S E → S → List E → Type 0
Ends o t es = (o ≡ go_on t es) ⊎ (o ≡ skip t es)

abbrev pub datagrams_of : List ℕ → List Packet → List Flying
datagrams_of from [] = []
datagrams_of from (to_tun p ∷ ps) = datagrams_of from ps
datagrams_of from (to_net d to ∷ ps) =
    record { bytes = d; from = from; to = to } ∷ datagrams_of from ps

abbrev pub writes_of : List Packet → List (List ℕ)
writes_of [] = []
writes_of (to_tun p ∷ ps) = p ∷ writes_of ps
writes_of (to_net d to ∷ ps) = writes_of ps

abbrev pub offered : Option (List ℕ) → List (List ℕ)
offered none = []
offered (some p) = p ∷ []

abbrev pub of_user : ℕ → List (List ℕ) → List (ℕ × List ℕ)
of_user uid [] = []
of_user uid (p ∷ ps) = (uid, p) ∷ of_user uid ps

abbrev pub update : (ℕ → Client.Loop) → ℕ → Client.Loop → ℕ → Client.Loop
update clients uid c j = if uid == j then c else clients j

-- A packet that a tunnel has: bytes, with the header's fields, and no more than a buffer takes.
pub record IsPacket (p : List ℕ) : Type 0 where
  pub bytes : IsBytes p
  pub header : 20 ≤ length p
  pub fits : length p ≤ 4096

abbrev pub IsOffer : Option (List ℕ) → Type 0
IsOffer none = Unit
IsOffer (some p) = IsPacket p

-- The clients' tunnels have IPv4 packets without options, which begin with 0x45.
abbrev pub IsClientOffer : Option (List ℕ) → Type 0
IsClientOffer none = Unit
IsClientOffer (some p) = IsPacket p × (byte_at p 0 ≡ 69)

-- The addresses of the clients' sockets and of the server's.
module _ (address : ℕ → List ℕ) (server_addr : List ℕ) where
  -- What `recvfrom` gives was sent here.
  abbrev pub ServerReceives : World → Option (List ℕ × List ℕ) → Type 0
  ServerReceives w none = Unit
  ServerReceives w (some (d, from)) =
      Memᴰ (record { bytes = d; from = from; to = server_addr }) w.flying

  abbrev pub ClientReceives : World → ℕ → Option (List ℕ) → Type 0
  ClientReceives w uid none = Unit
  ClientReceives w uid (some d) =
      (from : List ℕ) × Memᴰ (record { bytes = d; from = from; to = address uid }) w.flying

  abbrev pub after_server : World → Server.Round → Server.Loop → List Server.Effect → World
  after_server w r t es =
      let packets = ServerView.packets_of es in
      record w {
        server = t;
        flying = datagrams_of server_addr packets ++ w.flying;
        server_offers = offered r.tun_read ++ w.server_offers;
        server_writes = writes_of packets ++ w.server_writes;
      }

  abbrev pub after_client : World → ℕ → Client.Round → Client.Loop → List Client.Effect → World
  after_client w uid r t es =
      let packets = ClientView.packets_of es in
      record w {
        clients = update w.clients uid t;
        flying = datagrams_of (address uid) packets ++ w.flying;
        client_offers = of_user uid (offered r.tun_read) ++ w.client_offers;
        client_writes = of_user uid (writes_of packets) ++ w.client_writes;
      }

  -- A round of the server, or of the client of a user that the server knows.
  pub data Advance (w u : World) : Type 0 where
    server_moves :
        (r : Server.Round) (t : Server.Loop) (es : List Server.Effect)
        → ServerReceives w r.received
        → IsOffer r.tun_read
        → Ends (Server.round r w.server) t es
        → u ≡ after_server w r t es
        → Advance w u
    client_moves :
        (uid : ℕ) (node : Server.ClientNode) (r : Client.Round) (t : Client.Loop)
        (es : List Client.Effect)
        → Server.client_at w.server.server uid ≡ some node
        → ClientReceives w uid r.received
        → IsClientOffer r.tun_read
        → Ends (Client.round r (w.clients uid)) t es
        → u ≡ after_client w uid r t es
        → Advance w u

  pub data Reach (w : World) : World → Type 0 where
    here : Reach w w
    later : {u v : World} → Reach w u → Advance u v → Reach w v
