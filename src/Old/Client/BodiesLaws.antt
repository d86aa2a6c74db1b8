-- ===== src/Old/Client/BodiesLaws.antt =====
-- Packets through the two threads of the older Linux client.
use s_vpn.Common.{ℕ, ◌≤◌, ◌≡◌, refl, ◌∙◌, ap, ap₂, List, [], ◌∷◌, map, length, byte_at, IsBytes}
use mathlib.Core.List.{Memᴰ}
use mathlib.Core.Path.{subst}
use s_vpn.Common.Control.{go_on, skip, stop, emit}
use s_vpn.Crypt.{CodeTable}
use s_vpn.Crypt.Table.{IsCodeTable}
use s_vpn.Crypt.Codes.{length-map, encode_all, decode_all, decode_all-encode_all}
use s_vpn.Old.Client.{buffer_len, SvpnClient, Loop, Effect, write_tun, send_to, Outcome}
use s_vpn.Old.Client.Linux.{Arrival, interrupted, failed, arrived, recv_round, send_round}
use s_vpn.Old.Client.Whole.{HasBuffers, Keeps, send_packet-Keeps, write_packet-Keeps}
use s_vpn.Old.Client.Bodies.{Turn, off, on, thread, recv_thread, send_thread, taken}

-- The thread of a client, with its arrays.
record Holds (client : SvpnClient) (s : Loop) : Type 0 where
  pub room : HasBuffers s
  pub same : s.client ≡ client

-- A body that does one thing with what arrives, and nothing where the call failed.
record Does (Inv : Loop → Type 0) (Fits : List ℕ → Type 0) (effect : List ℕ → Effect)
    (body : Loop → Arrival → Outcome) : Type 0 where
  pub ends : (s : Loop) → body s interrupted ≡ stop
  pub goes_on : (s : Loop) → body s failed ≡ skip s []
  pub acts :
      (s : Loop) (d : List ℕ)
      → Inv s
      → Fits d
      → (t : Loop) × (body s (arrived d) ≡ go_on t (effect d ∷ [])) × Inv t

module _ (Inv : Loop → Type 0) (Fits : List ℕ → Type 0) (effect : List ℕ → Effect)
    (body : Loop → Arrival → Outcome) (does : Does Inv Fits effect body) where
  thread-Does :
      (xs : List Turn) (s : Loop)
      → Inv s
      → ((d : List ℕ) → Memᴰ d (taken xs) → Fits d)
      → (t : Loop) × (thread body xs s ≡ go_on t (map effect (taken xs))) × Inv t
  unfolding thread
  thread-Does [] s inv fits = (s, refl, inv)
  thread-Does (off ∷ xs) s inv fits = (s, refl, inv)
  thread-Does (on interrupted ∷ xs) s inv fits = (s, rw (does.ends s) refl, inv)
  thread-Does (on failed ∷ xs) s inv fits =
      let (t, e, inv') = thread-Does xs s inv fits in
      (t, rw (does.goes_on s) (ap (emit []) e), inv')
  thread-Does (on (arrived d) ∷ xs) s inv fits =
      let (u, e, inv') = does.acts s d inv (fits d (Memᴰ.head refl)) in
      let (t, e', inv'') = thread-Does xs u inv' (λ d m. fits d (Memᴰ.tail m)) in
      (t, rw e (ap (emit (effect d ∷ [])) e'), inv'')

abbrev Fits : List ℕ → Type 0
Fits d = length d ≤ buffer_len

-- The threads' bodies, for a client.
module _ (client : SvpnClient) where
  held : (s t : Loop) → Holds client s → Keeps s t → Holds client t
  held s t h kept = record { room = kept.room; same = kept.client ∙ h.same }

  send_round-Does :
      Does
        (Holds client)
        Fits
        (λ p. send_to (encode_all client.table p) client.server_addr)
        send_round
  unfolding send_round
  send_round-Does = record {
    ends = λ s. refl;
    goes_on = λ s. refl;
    acts = λ s p h fits.
        let (t, e, kept) = send_packet-Keeps s p h.room fits in
        (
          t,
          e ∙ ap (λ c. go_on t (send_to (encode_all c.table p) c.server_addr ∷ [])) h.same,
          held s t h kept,
        );
  }

  recv_round-Does : Does (Holds client) Fits (λ d. write_tun (decode_all client.table d)) recv_round
  unfolding recv_round
  recv_round-Does = record {
    ends = λ s. refl;
    goes_on = λ s. refl;
    acts = λ s d h fits.
        let (t, e, kept) = write_packet-Keeps s d h.room fits in
        (t, e ∙ ap (λ c. go_on t (write_tun (decode_all c.table d) ∷ [])) h.same, held s t h kept);
  }

-- Packets that are written from their codes.
write_all :
    (ct : CodeTable) (qs : List (List ℕ))
    → IsCodeTable ct
    → ((q : List ℕ) → Memᴰ q qs → IsBytes q)
    → map (λ d. write_tun (decode_all ct d)) (map (encode_all ct) qs) ≡ map write_tun qs
write_all ct [] good bytes = refl
write_all ct (q ∷ qs) good bytes =
    ap₂ (λ p es. write_tun p ∷ es) (decode_all-encode_all ct q good (bytes q (Memᴰ.head refl)))
      (write_all ct qs good (λ q m. bytes q (Memᴰ.tail m)))

mem_codes :
    (ct : CodeTable) (qs : List (List ℕ))
    → ((q : List ℕ) → Memᴰ q qs → Fits q)
    → (d : List ℕ) → Memᴰ d (map (encode_all ct) qs)
    → Fits d
mem_codes ct [] fits d m = elim m [ ]
mem_codes ct (q ∷ qs) fits d (Memᴰ.head e) =
    rw (e, length-map (λ b. byte_at ct.encode b) q) (fits q (Memᴰ.head refl))
mem_codes ct (q ∷ qs) fits d (Memᴰ.tail m) = mem_codes ct qs (λ q m. fits q (Memᴰ.tail m)) d m

-- The thread that sends, at one client, and the one that receives, at another with the same table and
-- its inverse; both have arrays of 4096 bytes, and the first reads packets of bytes, of at most 4096
-- bytes. The first sends one datagram for each packet that it reads before its end, in their order, to
-- its server. If the second receives datagrams of these packets, in any order, some more than once and
-- some never, it writes just these packets in the order in which they come.
pub threads-Deliver :
    (s r : Loop) (xs ys : List Turn) (qs : List (List ℕ))
    → HasBuffers s
    → HasBuffers r
    → IsCodeTable s.client.table
    → r.client.table ≡ s.client.table
    → ((p : List ℕ) → Memᴰ p (taken xs) → IsBytes p × (length p ≤ buffer_len))
    → ((q : List ℕ) → Memᴰ q qs → Memᴰ q (taken xs))
    → taken ys ≡ map (encode_all s.client.table) qs
    → ((s' : Loop) × (send_thread xs s
          ≡ go_on s'
              (map (λ p. send_to (encode_all s.client.table p) s.client.server_addr) (taken xs)))
        × (s'.client ≡ s.client))
      × ((r' : Loop) × (recv_thread ys r ≡ go_on r' (map write_tun qs)) × (r'.client ≡ r.client))
unfolding send_thread recv_thread
threads-Deliver s r xs ys qs room room' good same packets among codes =
    let (s', e, h) =
      thread-Does (Holds s.client) Fits _ send_round (send_round-Does s.client) xs s
        (record { room = room; same = refl }) (λ p m. (packets p m).1) in
    let (r', e', h') =
      thread-Does (Holds r.client) Fits _ recv_round (recv_round-Does r.client) ys r
        (record { room = room'; same = refl })
        (λ d m.
          mem_codes s.client.table qs (λ q m. (packets q (among q m)).1) d
            (subst (Memᴰ d) codes m)) in
    (
      (s', e, h.same),
      (
        r',
        e'
            ∙ ap (go_on r') (
                ap₂ (λ ct ds. map (λ d. write_tun (decode_all ct d)) ds) same codes
                ∙ write_all s.client.table qs good (λ q m. (packets q (among q m)).0)),
        h'.same,
      ),
    )
