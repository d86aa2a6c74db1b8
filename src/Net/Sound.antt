-- ===== src/Net/Sound.antt =====
-- What is true of the users, the datagrams and the packets of the net, and what the relays keep of it.
use s_vpn.Common.{
  ℕ, ◌≡◌, ◌⊎◌, refl, sym, ◌∙◌, ap, ap₂, arith, List, [], ◌∷◌, ◌++◌, byte_at, ◌==◌, ==_iff,
  Bool-cases, inl, inr, Bool, true, false, Option, none, some,
}
use mathlib.Core.List.{Memᴰ}
use mathlib.Core.Path.{subst}
use mathlib.Core.Option.{some-injective}
use s_vpn.Crypt.{CodeTable}
use s_vpn.Crypt.Codes.{byte_at-map, encode_all, decode_all, decode_all-encode_all}
use s_vpn.Crypt.Table.{IsCodeTable}
use s_vpn.Server.Loop.{ClientNode, is_source, Selected, interrupted, failed, ready, Round}
use s_vpn.Traffic.Packet.{Packet, to_tun, to_net}
use s_vpn.Server.Relay.{
  Peers, Turn, pass_it, enter, admit, relay_in, forward, relay_out, then_out, relay_selected,
}
use s_vpn.Net.{Flying, IsPacket}

abbrev pub All : {A : Type 0} → (A → Type 0) → List A → Type 0
All P [] = Unit
All P (x ∷ xs) = P x × All P xs

pub All-append :
    {A : Type 0} (P : A → Type 0) (xs ys : List A) → All P xs → All P ys → All P (xs ++ ys)
All-append P [] ys h h' = h'
All-append P (x ∷ xs) ys (h, hs) h' = (h, All-append P xs ys hs h')

-- The users' tables, the addresses of their sockets, those that the server has for them at first, and
-- the server's own.
pub record Plan : Type 0 where
  pub table : ℕ → CodeTable
  pub address : ℕ → List ℕ
  pub before : ℕ → List ℕ
  pub server_addr : List ℕ
  pub net : List ℕ

-- The table of a user: inverse halves, and the code of 0x45 is the user's number.
pub record IsUser (plan : Plan) (uid : ℕ) : Type 0 where
  pub good : IsCodeTable (plan.table uid)
  pub identity : byte_at (plan.table uid).encode 69 ≡ uid

pub record IsPeer (plan : Plan) (uid : ℕ) (node : ClientNode) : Type 0 where
  pub user : IsUser plan uid
  pub table : node.table ≡ plan.table uid
  pub addr : (node.addr ≡ plan.address uid) ⊎ (node.addr ≡ plan.before uid)

abbrev pub ArePeers : Plan → Peers → Type 0
ArePeers plan peers = (uid : ℕ) (node : ClientNode) → peers uid ≡ some node → IsPeer plan uid node

-- A datagram of a client to the server, for a packet that the client's tunnel had.
pub record IsUp (plan : Plan) (offers : List (ℕ × List ℕ)) (d : Flying) : Type 0 where
  pub uid : ℕ
  pub packet : List ℕ
  pub user : IsUser plan uid
  pub to_server : d.to ≡ plan.server_addr
  pub sender : d.from ≡ plan.address uid
  pub offer : Memᴰ (uid, packet) offers
  pub is_packet : IsPacket packet
  pub magic : byte_at packet 0 ≡ 69
  pub codes : d.bytes ≡ encode_all (plan.table uid) packet

-- A datagram of the server to a user, for a packet that the server's tunnel had.
pub record IsDown (plan : Plan) (offers : List (List ℕ)) (d : Flying) : Type 0 where
  pub uid : ℕ
  pub packet : List ℕ
  pub user : IsUser plan uid
  pub receiver : (d.to ≡ plan.address uid) ⊎ (d.to ≡ plan.before uid)
  pub offer : Memᴰ packet offers
  pub is_packet : IsPacket packet
  pub destination : byte_at packet 19 ≡ uid
  pub codes : d.bytes ≡ encode_all (plan.table uid) packet

-- What the server may send or write.
abbrev pub ServerMay : Plan → List (ℕ × List ℕ) → List (List ℕ) → Packet → Type 0
ServerMay plan ups downs (to_tun p) =
    (uid : ℕ) × Memᴰ (uid, p) ups × (is_source p plan.net uid ≡ true)
ServerMay plan ups downs (to_net d addr) =
    IsDown plan downs (record { bytes = d; from = plan.server_addr; to = addr })

module _ (plan : Plan) (ups : List (ℕ × List ℕ)) (downs : List (List ℕ)) where
  abbrev pub IsSound : Turn → Type 0
  IsSound turn = ArePeers plan turn.peers × All (ServerMay plan ups downs) turn.packets

  -- A datagram that arrives at the server.
  abbrev pub Arrives : Option (List ℕ × List ℕ) → Type 0
  Arrives none = Unit
  Arrives (some (d, from)) =
      IsUp plan ups (record { bytes = d; from = from; to = plan.server_addr })

  abbrev pub HasOffered : Option (List ℕ) → Type 0
  HasOffered none = Unit
  HasOffered (some p) = IsPacket p × Memᴰ p downs

  entered-ArePeers :
      (peers : Peers) (uid : ℕ) (node : ClientNode)
      → ArePeers plan peers
      → IsPeer plan uid node
      → ArePeers plan (enter peers uid node)
  entered-ArePeers peers uid node sound peer j other e = elim (Bool-cases (uid == j)) [
    | inl same ↦
        subst (IsPeer plan j) (some-injective node other (rw same at e))
          (subst (λ k. IsPeer plan k node) ((==_iff uid j).0 same) peer)
    | inr differs ↦ sound j other (rw differs at e)
  ]

  admit-IsSound :
      (peers : Peers) (d from p : List ℕ) (uid : ℕ) (node : ClientNode)
      → ArePeers plan peers
      → IsPeer plan uid node
      → byte_at d 0 ≡ uid
      → decode_all node.table d ≡ p
      → from ≡ plan.address uid
      → Memᴰ (uid, p) ups
      → IsSound (admit plan.net peers d from (some node))
  admit-IsSound peers d from p uid node sound peer first decoded is_from offer =
      rw (first, decoded)
        (elim (Bool-cases (is_source p plan.net uid)) [
          | inl ok ↦ rw (ok) (
            entered-ArePeers peers uid (record node { addr = from }) sound
                (record { user = peer.user; table = peer.table; addr = inl is_from }),
            ((uid, offer, ok), tt),
          )
          | inr bad ↦ rw (bad) (sound, tt)
        ])

  relay_in-IsSound :
      (peers : Peers) (received : Option (List ℕ × List ℕ))
      → ArePeers plan peers
      → Arrives received
      → IsSound (relay_in plan.net peers received)
  relay_in-IsSound peers none sound up = (sound, tt)
  relay_in-IsSound peers (some (d, from)) sound up = entry (peers (byte_at d 0)) refl
    where
      first : byte_at d 0 ≡ up.uid
      first =
          ap (λ d. byte_at d 0) up.codes
          ∙ byte_at-map (λ b. byte_at (plan.table up.uid).encode b) up.packet 0
              (omega (arith, up.is_packet.header))
          ∙ ap (byte_at (plan.table up.uid).encode) up.magic
          ∙ up.user.identity

      entry :
          (o : Option ClientNode)
          → peers (byte_at d 0) ≡ o
          → IsSound (admit plan.net peers d from o)
      entry none e = (sound, tt)
      entry (some node) e =
          let peer = sound up.uid node (ap peers (sym first) ∙ e) in
          admit-IsSound peers d from up.packet up.uid node sound peer first
            (ap₂ (λ t d. decode_all t d) peer.table up.codes
              ∙ decode_all-encode_all (plan.table up.uid) up.packet up.user.good up.is_packet.bytes)
            up.sender up.offer

  relay_out-IsSound :
      (peers : Peers) (read : Option (List ℕ))
      → ArePeers plan peers
      → HasOffered read
      → IsSound (relay_out peers read)
  relay_out-IsSound peers none sound offer = (sound, tt)
  relay_out-IsSound peers (some p) sound (is_packet, offer) = entry (peers (byte_at p 19)) refl
    where
      entry : (o : Option ClientNode) → peers (byte_at p 19) ≡ o → IsSound (forward peers p o)
      entry none e = (sound, tt)
      entry (some node) e =
          let peer = sound (byte_at p 19) node e in
          (
            sound,
            (
              record {
                uid = byte_at p 19;
                packet = p;
                user = peer.user;
                receiver = peer.addr;
                offer = offer;
                is_packet = is_packet;
                destination = refl;
                codes = ap (λ t. encode_all t p) peer.table;
              },
              tt,
            ),
          )

  then_out-IsSound :
      (tun : Bool) (r : Round) (turn : Turn)
      → IsSound turn
      → HasOffered r.tun_read
      → IsSound (then_out tun r turn)
  then_out-IsSound tun r turn sound offer = elim (Bool-cases turn.drops) [
    | inl drops ↦ rw (drops) sound
    | inr goes ↦ rw (goes) (elim (Bool-cases tun) [
      | inl reads ↦
          let (peers, packets) = relay_out-IsSound turn.peers r.tun_read sound.0 offer in
          rw (reads) (peers, All-append (ServerMay plan ups downs) turn.packets _ sound.1 packets)
      | inr silent ↦ rw (silent) sound
    ])
  ]

  -- A round of the server's relay.
  pub relay_selected-IsSound :
      (peers : Peers) (r : Round) (sel : Selected)
      → ArePeers plan peers
      → Arrives r.received
      → HasOffered r.tun_read
      → IsSound (relay_selected plan.net peers r sel)
  relay_selected-IsSound peers r interrupted sound up offer = (sound, tt)
  relay_selected-IsSound peers r failed sound up offer = (sound, tt)
  relay_selected-IsSound peers r (ready true tun) sound up offer =
      then_out-IsSound tun r (relay_in plan.net peers r.received)
        (relay_in-IsSound peers r.received sound up) offer
  relay_selected-IsSound peers r (ready false tun) sound up offer =
      then_out-IsSound tun r (pass_it peers []) (sound, tt) offer
