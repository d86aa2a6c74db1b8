-- ===== src/Net/Clients.antt =====
-- What the client's relay keeps, and how a list of packets goes to the net and the tunnel.
use s_vpn.Common.{
  ℕ, ◌/◌, ◌≡◌, ◌≢◌, refl, sym, ◌∙◌, ap, List, [], ◌∷◌, byte_at, ◌==◌, Bool-cases, inl, inr, Bool,
  true, false, Option, none, some,
}
use mathlib.Core.List.{Memᴰ}
use mathlib.Core.Path.{subst}
use mathlib.Core.Option.{some-injective, none-ne-some}
use s_vpn.Crypt.Codes.{encode_all, decode_all, decode_all-encode_all}
use s_vpn.Client.Loop.{Selected, interrupted, failed, ready, Round}
use s_vpn.Client.Relay as Relay
use s_vpn.Traffic.Packet.{Packet, to_tun, to_net}
use s_vpn.Net.{Flying, IsPacket, datagrams_of, writes_of, of_user}
use s_vpn.Net.Sound.{Plan, IsUser, IsUp, All, All-append}

-- The addresses are apart: a client's socket is neither another's nor the server's, and an address
-- that the server has at first is none of these.
pub record AreApart (plan : Plan) : Type 0 where
  pub clients : (u v : ℕ) → plan.address u ≡ plan.address v → u ≡ v
  pub server : (u : ℕ) → plan.server_addr ≢ plan.address u
  pub at_first : (u v : ℕ) → plan.address v ≢ plan.before u
  pub server_at_first : (u : ℕ) → plan.server_addr ≢ plan.before u

-- What a client may send or write.
abbrev pub ClientMay : Plan → ℕ → List (ℕ × List ℕ) → List (List ℕ) → Packet → Type 0
ClientMay plan uid ups downs (to_tun p) = Memᴰ p downs × (byte_at p 19 ≡ uid)
ClientMay plan uid ups downs (to_net d addr) =
    IsUp plan ups (record { bytes = d; from = plan.address uid; to = addr })

module _ (plan : Plan) (uid : ℕ) (user : IsUser plan uid) (ups : List (ℕ × List ℕ))
    (downs : List (List ℕ)) where
  abbrev MayAll : Relay.Turn → Type 0
  MayAll turn = All (ClientMay plan uid ups downs) turn.packets

  -- A datagram for this user that arrives at the client.
  abbrev pub Arrives : Option (List ℕ) → Type 0
  Arrives none = Unit
  Arrives (some d) =
      (p : List ℕ) × Memᴰ p downs
      × IsPacket p
      × (byte_at p 19 ≡ uid)
      × (d ≡ encode_all (plan.table uid) p)

  abbrev pub HasOffered : Option (List ℕ) → Type 0
  HasOffered none = Unit
  HasOffered (some p) = IsPacket p × (byte_at p 0 ≡ 69) × Memᴰ (uid, p) ups

  relay_out-MayAll :
      (read : Option (List ℕ))
      → HasOffered read
      → MayAll (Relay.relay_out (plan.table uid) plan.server_addr read)
  relay_out-MayAll none offer = tt
  relay_out-MayAll (some p) (is_packet, magic, offer) = (
    record {
      uid = uid;
      packet = p;
      user = user;
      to_server = refl;
      sender = refl;
      offer = offer;
      is_packet = is_packet;
      magic = magic;
      codes = refl;
    },
    tt,
  )

  relay_in-MayAll :
      (received : Option (List ℕ))
      → Arrives received
      → MayAll (Relay.relay_in (plan.table uid) plan.server_addr received)
  relay_in-MayAll none down = tt
  relay_in-MayAll (some d) (p, offer, is_packet, destination, codes) =
      rw
        (ap (decode_all (plan.table uid)) codes
          ∙ decode_all-encode_all (plan.table uid) p user.good is_packet.bytes)
        (elim (Bool-cases (byte_at p 0 / 16 == 4)) [
          | inl v4 ↦ rw (v4) ((offer, destination), tt)
          | inr other ↦ rw (other) tt
        ])

  then_in-MayAll :
      (sock : Bool) (r : Round) (turn : Relay.Turn)
      → MayAll turn
      → Arrives r.received
      → MayAll (Relay.then_in (plan.table uid) plan.server_addr sock r turn)
  then_in-MayAll sock r turn may down = elim (Bool-cases turn.drops) [
    | inl drops ↦ rw (drops) may
    | inr goes ↦ rw (goes) (elim (Bool-cases sock) [
      | inl reads ↦ rw (reads) (
          All-append (ClientMay plan uid ups downs) turn.packets _ may
            (relay_in-MayAll r.received down))
      | inr silent ↦ rw (silent) may
    ])
  ]

  -- A round of the client's relay.
  pub relay_selected-MayAll :
      (r : Round) (sel : Selected) (turn : Relay.Turn)
      → Relay.relay_selected (plan.table uid) plan.server_addr r sel ≡ some turn
      → HasOffered r.tun_read
      → Arrives r.received
      → All (ClientMay plan uid ups downs) turn.packets
  relay_selected-MayAll r interrupted turn e offer down = absurd (none-ne-some turn e)
  relay_selected-MayAll r failed turn e offer down = subst MayAll (some-injective _ _ e) tt
  relay_selected-MayAll r (ready true sock) turn e offer down =
      subst MayAll (some-injective _ _ e)
        (then_in-MayAll sock r _ (relay_out-MayAll r.tun_read offer) down)
  relay_selected-MayAll r (ready false sock) turn e offer down =
      subst MayAll (some-injective _ _ e) (then_in-MayAll sock r (Relay.pass_it []) tt down)

module _ (Q : Packet → Type 0) where
  -- What holds of what a part sends holds of the datagrams that it adds to the net.
  pub datagrams_of-All :
      (P : Flying → Type 0) (from : List ℕ) (ps : List Packet)
      → ((d addr : List ℕ) → Q (to_net d addr) → P (record { bytes = d; from = from; to = addr }))
      → All Q ps
      → (d : Flying) → Memᴰ d (datagrams_of from ps)
      → P d
  datagrams_of-All P from [] h all d m = elim m [ ]
  datagrams_of-All P from (to_tun p ∷ ps) h (q, all) d m = datagrams_of-All P from ps h all d m
  datagrams_of-All P from (to_net b addr ∷ ps) h (q, all) d (Memᴰ.head e) =
      subst P (sym e) (h b addr q)
  datagrams_of-All P from (to_net b addr ∷ ps) h (q, all) d (Memᴰ.tail m) =
      datagrams_of-All P from ps h all d m

  pub writes_of-All :
      (P : List ℕ → Type 0) (ps : List Packet)
      → ((p : List ℕ) → Q (to_tun p) → P p)
      → All Q ps
      → (p : List ℕ) → Memᴰ p (writes_of ps)
      → P p
  writes_of-All P [] h all p m = elim m [ ]
  writes_of-All P (to_net b addr ∷ ps) h (q, all) p m = writes_of-All P ps h all p m
  writes_of-All P (to_tun b ∷ ps) h (q, all) p (Memᴰ.head e) = subst P (sym e) (h b q)
  writes_of-All P (to_tun b ∷ ps) h (q, all) p (Memᴰ.tail m) = writes_of-All P ps h all p m

pub mem_of_user :
    (uid u : ℕ) (p : List ℕ) (ps : List (List ℕ))
    → Memᴰ (u, p) (of_user uid ps)
    → (u ≡ uid) × Memᴰ p ps
mem_of_user uid u p [] m = elim m [ ]
mem_of_user uid u p (q ∷ ps) (Memᴰ.head e) = (ap (λ x. x.0) e, Memᴰ.head (ap (λ x. x.1) e))
mem_of_user uid u p (q ∷ ps) (Memᴰ.tail m) =
    let (same, m') = mem_of_user uid u p ps m in (same, Memᴰ.tail m')
