-- ===== src/Net/ClientStep.antt =====
-- A round of a client keeps the net intact.
use s_vpn.Common.{
  ℕ, ◌≡◌, refl, sym, ◌∙◌, ap, arith, List, ◌++◌, length, byte_at, ◌==◌, ==_iff, Bool-cases, inl,
  inr, Option, none, some,
}
use mathlib.Core.List.{Memᴰ}
use mathlib.Core.List.Memᴰ
use mathlib.Core.Path.{subst}
use s_vpn.Crypt.Codes.{length-map, encode_all}
use s_vpn.Server.Loop as Server
use s_vpn.Client.Loop as Client
use s_vpn.Client.Relay as ClientRelay
use s_vpn.Client.Refines as ClientView
use s_vpn.Client.RefinesLoop as ClientLoop
use s_vpn.Net.{
  World, Ends, datagrams_of, writes_of, offered, of_user, IsClientOffer, ClientReceives,
  after_client,
}
use s_vpn.Net.Sound.{Plan, IsUser, IsUp, All}
use s_vpn.Net.Clients as Clients
use s_vpn.Net.Clients.{
  AreApart, ClientMay, relay_selected-MayAll, datagrams_of-All, writes_of-All, mem_of_user,
}
use s_vpn.Net.Invariant.{IsIntact, more-IsUp}

ended-IsClient :
    (plan : Plan) (uid : ℕ) (o : Client.Outcome) (t : Client.Loop) (es : List Client.Effect)
    (turn : Option ClientRelay.Turn)
    → Ends o t es
    → ClientLoop.Yields (plan.table uid) plan.server_addr o turn
    → (first : ClientRelay.Turn) × (turn ≡ some first)
      × ClientView.IsClient (plan.table uid) plan.server_addr t
      × (ClientView.packets_of es ≡ first.packets)
ended-IsClient plan uid o t es none (inl e) yields =
    absurd (subst (λ o. ClientLoop.Yields (plan.table uid) plan.server_addr o none) e yields)
ended-IsClient plan uid o t es none (inr e) yields =
    absurd (subst (λ o. ClientLoop.Yields (plan.table uid) plan.server_addr o none) e yields)
ended-IsClient plan uid o t es (some first) (inl e) yields =
    let (client, packets) =
      subst (λ o. ClientLoop.Yields (plan.table uid) plan.server_addr o (some first)) e yields in
    (first, refl, client, packets)
ended-IsClient plan uid o t es (some first) (inr e) yields =
    let (client, packets) =
      subst (λ o. ClientLoop.Yields (plan.table uid) plan.server_addr o (some first)) e yields in
    (first, refl, client, packets)

module _ (plan : Plan) (apart : AreApart plan) (w : World) (intact : IsIntact plan w) where
  -- What arrives at a client is the server's, for that client.
  received-Arrives :
      (uid : ℕ) (user : IsUser plan uid) (ups : List (ℕ × List ℕ)) (received : Option (List ℕ))
      → ClientReceives plan.address plan.server_addr w uid received
      → Clients.Arrives plan uid user ups w.server_offers received
  received-Arrives uid user ups none m = tt
  received-Arrives uid user ups (some d) (from, m) = elim (intact.flying _ m) [
    | inl up ↦ absurd (apart.server uid (sym up.to_server))
    | inr down ↦ elim down.receiver [
      | inl e ↦
          let same = sym (apart.clients uid down.uid e) in
          (
            down.packet,
            down.offer,
            down.is_packet,
            down.destination ∙ same,
            down.codes ∙ ap (λ u. encode_all (plan.table u) down.packet) same,
          )
      | inr e ↦ absurd (apart.at_first down.uid uid e)
    ]
  ]

  offered_up :
      (uid : ℕ) (user : IsUser plan uid) (read : Option (List ℕ))
      → IsClientOffer read
      → Clients.HasOffered plan uid user
          (of_user uid (offered read) ++ w.client_offers)
          w.server_offers
          read
  offered_up uid user none offer = tt
  offered_up uid user (some p) (is_packet, magic) = (is_packet, magic, Memᴰ.head refl)

  received-FitsIn :
      (uid : ℕ) (user : IsUser plan uid) (ups : List (ℕ × List ℕ)) (received : Option (List ℕ))
      → Clients.Arrives plan uid user ups w.server_offers received
      → ClientView.FitsIn received
  received-FitsIn uid user ups none down = tt
  received-FitsIn uid user ups (some d) (p, offer, is_packet, destination, codes) =
      let size = ap (λ d. length d) codes ∙ length-map (λ b. byte_at (plan.table uid).encode b) p in
      (omega (arith, size, is_packet.header), omega (arith, size, is_packet.fits))

  offer-FitsOut : (read : Option (List ℕ)) → IsClientOffer read → ClientView.FitsOut read
  offer-FitsOut none offer = tt
  offer-FitsOut (some p) (is_packet, magic) = is_packet.fits

  pub client-IsIntact :
      (uid : ℕ) (node : Server.ClientNode) (r : Client.Round) (t : Client.Loop)
      (es : List Client.Effect)
      → Server.client_at w.server.server uid ≡ some node
      → ClientReceives plan.address plan.server_addr w uid r.received
      → IsClientOffer r.tun_read
      → Ends (Client.round r (w.clients uid)) t es
      → IsIntact plan (after_client plan.address plan.server_addr w uid r t es)
  client-IsIntact uid node r t es known receives offer ends =
      let user = (intact.peers uid node known).user in
      let ups = of_user uid (offered r.tun_read) ++ w.client_offers in
      let down = received-Arrives uid user ups r.received receives in
      let (turn, e, client, packets) =
        ended-IsClient plan uid (Client.round r (w.clients uid)) t es _ ends (
          ClientLoop.round-Yields (plan.table uid) plan.server_addr r (w.clients uid)
            (intact.clients uid) (offer-FitsOut r.tun_read offer)
            (received-FitsIn uid user ups r.received down)) in
      let Q = ClientMay plan uid ups w.server_offers in
      let may = subst (All Q) (sym packets) (
        relay_selected-MayAll plan uid user ups w.server_offers r r.selected turn e
          (offered_up uid user r.tun_read offer) down) in
      record {
        peers = intact.peers;
        arrays = intact.arrays;
        net = intact.net;
        clients = λ j. elim (Bool-cases (uid == j)) [
          | inl same ↦ rw (same) (
              subst (λ k. ClientView.IsClient (plan.table k) plan.server_addr t)
                ((==_iff uid j).0 same) client)
          | inr differs ↦ rw (differs) (intact.clients j)
        ];
        flying = λ d m.
            elim (Memᴰ.append_cases (datagrams_of (plan.address uid) (ClientView.packets_of es))
              m) [
                | inl sent ↦ inl (
                    datagrams_of-All Q (IsUp plan ups) (plan.address uid) (ClientView.packets_of es)
                      (λ b addr q. q) may d sent)
                | inr flew ↦ elim (intact.flying d flew) [
                  | inl up ↦
                      inl (more-IsUp plan (of_user uid (offered r.tun_read)) w.client_offers d up)
                  | inr down' ↦ inr down'
                ]
              ];
        server_writes = λ p m.
            let (u, offer', source) = intact.server_writes p m in
            (u, Memᴰ.append_right (of_user uid (offered r.tun_read)) offer', source);
        client_writes = λ u p m.
            elim (Memᴰ.append_cases (of_user uid (writes_of (ClientView.packets_of es))) m) [
              | inl wrote ↦
                  let (same, wrote') =
                    mem_of_user uid u p (writes_of (ClientView.packets_of es)) wrote in
                  let (offer', destination) =
                    writes_of-All Q (λ p. Memᴰ p w.server_offers × (byte_at p 19 ≡ uid))
                      (ClientView.packets_of es) (λ p q. q) may p wrote' in
                  (offer', destination ∙ sym same)
              | inr written ↦ intact.client_writes u p written
            ];
      }
