-- ===== src/Net/ServerStep.antt =====
-- A round of the server keeps the net intact.
use s_vpn.Common.{
  ℕ, ◌≡◌, refl, sym, ◌∙◌, ap, arith, List, ◌++◌, length, byte_at, inl, inr, true, Option, none,
  some,
}
use mathlib.Core.List.{Memᴰ}
use mathlib.Core.List.Memᴰ
use mathlib.Core.Path.{subst}
use s_vpn.Common.Control.{Ensures}
use s_vpn.Crypt.Codes.{length-map}
use s_vpn.Server.Loop as Server
use s_vpn.Server.Keeps.{Keeps}
use s_vpn.Server.Invariant.{dispatch-Keeps}
use s_vpn.Server.Relay as ServerRelay
use s_vpn.Server.Refines as ServerView
use s_vpn.Server.RefinesParts as ServerParts
use s_vpn.Server.RefinesLoop.{RoundYields, Keeps-HasArrays, dispatch-Yields}
use s_vpn.Net.{World, Ends, datagrams_of, writes_of, offered, IsOffer, ServerReceives, after_server}
use s_vpn.Net.Sound as Sound
use s_vpn.Net.Sound.{
  Plan, IsUser, IsPeer, ArePeers, IsUp, IsDown, ServerMay, All, relay_selected-IsSound,
}
use s_vpn.Net.Clients.{AreApart, datagrams_of-All, writes_of-All}
use s_vpn.Net.Invariant.{IsIntact, more-IsDown}

-- A round that does not end the loop has what its relay has.
ended-Keeps :
    (r : Server.Round) (s t : Server.Loop) (es : List Server.Effect) (turn : ServerRelay.Turn)
    → Ends (Server.round r s) t es
    → RoundYields r (Server.dispatch r s r.selected) turn
    → Keeps s t × (ServerView.peers_of t ≡ turn.peers) × (ServerView.packets_of es ≡ turn.packets)
unfolding Server.round
ended-Keeps r s t es turn (inl e) yields =
    let (peers, packets) = subst (λ o. RoundYields r o turn) e yields in
    (subst (Ensures (Keeps s)) e (dispatch-Keeps r s r.selected), peers, packets)
ended-Keeps r s t es turn (inr e) yields =
    let (peers, packets) = subst (λ o. RoundYields r o turn) e yields in
    (subst (Ensures (Keeps s)) e (dispatch-Keeps r s r.selected), peers, packets)

module _ (plan : Plan) (apart : AreApart plan) (w : World) (intact : IsIntact plan w) where
  -- What arrives at the server is a client's.
  received-Arrives :
      (new : List (List ℕ)) (received : Option (List ℕ × List ℕ))
      → ServerReceives plan.address plan.server_addr w received
      → Sound.Arrives plan w.client_offers new received
  received-Arrives new none m = tt
  received-Arrives new (some (d, from)) m = elim (intact.flying _ m) [
    | inl up ↦ up
    | inr down ↦ elim down.receiver [
      | inl e ↦ absurd (apart.server down.uid e)
      | inr e ↦ absurd (apart.server_at_first down.uid e)
    ]
  ]

  offered_down :
      (read : Option (List ℕ))
      → IsOffer read
      → Sound.HasOffered plan w.client_offers (offered read ++ w.server_offers) read
  offered_down none offer = tt
  offered_down (some p) is_packet = (is_packet, Memᴰ.head refl)

  received-FitsIn :
      (new : List (List ℕ)) (received : Option (List ℕ × List ℕ))
      → Sound.Arrives plan w.client_offers new received
      → ServerParts.FitsIn received
  received-FitsIn new none up = tt
  received-FitsIn new (some (d, from)) up =
      let size =
        ap (λ d. length d) up.codes
        ∙ length-map (λ b. byte_at (plan.table up.uid).encode b) up.packet in
      (omega (arith, size, up.is_packet.header), omega (arith, size, up.is_packet.fits))

  offer-FitsOut : (read : Option (List ℕ)) → IsOffer read → ServerParts.FitsOut read
  offer-FitsOut none offer = tt
  offer-FitsOut (some p) is_packet = (is_packet.header, is_packet.fits)

  pub server-IsIntact :
      (r : Server.Round) (t : Server.Loop) (es : List Server.Effect)
      → ServerReceives plan.address plan.server_addr w r.received
      → IsOffer r.tun_read
      → Ends (Server.round r w.server) t es
      → IsIntact plan (after_server plan.address plan.server_addr w r t es)
  server-IsIntact r t es receives offer ends =
      let up = received-Arrives (offered r.tun_read ++ w.server_offers) r.received receives in
      let ends' = ended-Keeps r w.server t es _ ends (
        dispatch-Yields r w.server r.selected refl intact.arrays
          (received-FitsIn (offered r.tun_read ++ w.server_offers) r.received up)
          (offer-FitsOut r.tun_read offer)) in
      let (peers, may) =
        subst
          (λ n.
            Sound.IsSound plan w.client_offers (offered r.tun_read ++ w.server_offers)
              (ServerRelay.relay_selected n (ServerView.peers_of w.server) r r.selected))
          (sym intact.net)
          (relay_selected-IsSound plan w.client_offers (offered r.tun_read ++ w.server_offers)
            (ServerView.peers_of w.server) r r.selected intact.peers up
            (offered_down r.tun_read offer)) in
      let Q = ServerMay plan w.client_offers (offered r.tun_read ++ w.server_offers) in
      let may' = subst (All Q) (sym ends'.2) may in
      record {
        peers = subst (ArePeers plan) (sym ends'.1) peers;
        arrays = Keeps-HasArrays ends'.0 intact.arrays;
        net = ends'.0.same_net ∙ intact.net;
        clients = intact.clients;
        flying = λ d m.
            elim (Memᴰ.append_cases (datagrams_of plan.server_addr (ServerView.packets_of es)) m) [
              | inl sent ↦ inr (
                  datagrams_of-All Q (IsDown plan (offered r.tun_read ++ w.server_offers))
                    plan.server_addr (ServerView.packets_of es) (λ b addr q. q) may' d sent)
              | inr flew ↦ elim (intact.flying d flew) [
                | inl up' ↦ inl up'
                | inr down ↦ inr (more-IsDown plan (offered r.tun_read) w.server_offers d down)
              ]
            ];
        server_writes = λ p m. elim (Memᴰ.append_cases (writes_of (ServerView.packets_of es)) m) [
          | inl wrote ↦
              writes_of-All Q
                (λ p.
                  (uid : ℕ) × Memᴰ (uid, p) w.client_offers
                  × (Server.is_source p plan.net uid ≡ true))
                (ServerView.packets_of es) (λ p q. q) may' p wrote
          | inr written ↦ intact.server_writes p written
        ];
        client_writes = λ uid p m.
            let (offer', destination) = intact.client_writes uid p m in
            (Memᴰ.append_right (offered r.tun_read) offer', destination);
      }
