-- ===== src/Server/Accept.antt =====
-- What the server does with a packet that passes the check of its source, and with others.
use s_vpn.Common.{
  ℕ, ◌≡◌, ◌≢◌, refl, ◌∙◌, arith, List, [], ◌∷◌, ◌++◌, map, take, ◌==◌, Bool-cases, inl, inr, true,
  false, some,
}
use s_vpn.Server.Loop.{
  ClientNode, Loop, Round, Effect, write_tun, show, bytes_eq, client_at, is_source, deliver,
  count_send, relocate, moved_message, accept, from_client,
}
use s_vpn.Common.Control.{go_on}
use s_vpn.Crypt.{decrypt}
use s_vpn.Server.Status.{Globals, Output, output_info}
use s_vpn.Server.Keeps.{client_at-relocate}

bytes_eq-eq : (xs ys : List ℕ) → bytes_eq xs ys ≡ true → xs ≡ ys
bytes_eq-eq [] [] h = refl
bytes_eq-eq [] (y ∷ ys) h = cc
bytes_eq-eq (x ∷ xs) [] h = cc
bytes_eq-eq (x ∷ xs) (y ∷ ys) h = ground (arith, bytes_eq-eq xs ys)

-- The server's users after a packet of `uid` from `from`.
pub record IsMoved (s t : Loop) (uid : ℕ) (node : ClientNode) (from : List ℕ) : Type 0 where
  pub moved : client_at t.server uid ≡ some (record node { addr = from })
  pub others : (j : ℕ) → j ≢ uid → client_at t.server j ≡ client_at s.server j

relocate-IsMoved :
    (s : Loop) (uid : ℕ) (node : ClientNode)
    → client_at s.server uid ≡ some node
    → IsMoved s (relocate s uid node) uid node s.addr
relocate-IsMoved s uid node known = elim (Bool-cases (bytes_eq s.addr node.addr)) [
  | inl same ↦ record {
    moved = rw (unmoved same, bytes_eq-eq s.addr node.addr same) known;
    others = λ j n. rw (unmoved same);
  }
  | inr away ↦ record {
    moved = client_at-relocate s uid node uid known away ∙ rw (if_same uid);
    others = λ j n. client_at-relocate s uid node j known away ∙ rw (if_other j n);
  }
]
  where
    unmoved : bytes_eq s.addr node.addr ≡ true → relocate s uid node ≡ s
    unmoved same = unfold relocate in rw same

    if_same : (j : ℕ) → (j == j) ≡ true
    if_same j = ground arith

    if_other : (j : ℕ) → j ≢ uid → (uid == j) ≡ false
    if_other j n = ground arith

pub globals-relocate :
    (s : Loop) (uid : ℕ) (node : ClientNode) → (relocate s uid node).globals ≡ s.globals
unfolding relocate
globals-relocate s uid node = ground arith

buffer-relocate : (s : Loop) (uid : ℕ) (node : ClientNode) → (relocate s uid node).buffer ≡ s.buffer
unfolding relocate
buffer-relocate s uid node = ground arith

-- The effects of an accepted packet: a line if the client has moved, what `output_info` prints,
-- and the packet to the tunnel.
abbrev pub accepted_effects : Loop → ℕ → ClientNode → List Output → List ℕ → List Effect
accepted_effects s uid node os p = moved_message s uid node ++ (map show os ++ (write_tun p ∷ []))

module _ (r : Round) (s : Loop) (len uid : ℕ) (node : ClientNode) (g : Globals) (os : List Output)
    (known : client_at s.server uid ≡ some node)
    (reported : output_info r.opens (count_send len s.globals) ≡ some (g, os)) where
  abbrev pub arrived : Loop
  arrived = record s { buffer = decrypt node.table s.tmp_buffer s.buffer len }

  abbrev pub settled : Loop
  settled = record (relocate arrived uid node) { globals = g }

  pub from_client-accepts :
      is_source arrived.buffer s.server.local_addr uid ≡ true
      → (from_client r s len uid (some node)
          ≡ go_on settled (accepted_effects s uid node os (take len arrived.buffer)))
        × IsMoved s settled uid node s.addr
  unfolding from_client accept deliver
  from_client-accepts ok = (
    rw (ok, globals-relocate arrived uid node, reported, buffer-relocate arrived uid node),
    record {
      moved = (relocate-IsMoved arrived uid node known).moved;
      others = (relocate-IsMoved arrived uid node known).others;
    },
  )
