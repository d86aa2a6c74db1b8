-- ===== src/Old/Release.antt =====
-- `svpn_server_release` of old-code/server/svpn_server.c, for a server that has its list, and what it
-- frees.
use s_vpn.Common.{
  ℕ, zero, suc, ◌+◌, ◌<◌, ◌≡◌, refl, ◌∙◌, ap, arith, List, [], ◌∷◌, ◌++◌, map, set, get_or-set,
  if◌then◌else◌, Bool-cases, inl, inr, Option, none, some,
}
use s_vpn.Common.Int.{ℤ, pos, negsuc}
use s_vpn.Old.Server.{Node, Server, node_at, is_free, remove_client}

pub data Release : Type 0 where
  closes : ℤ → Release
  frees_node : ℕ → Release
  frees_list frees_server : Release

-- What `svpn_server_remove_client` frees.
abbrev pub freed_node : Option Server → ℕ → List Release
freed_node none idx = []
freed_node (some psc) idx = if is_free (node_at psc.node_list idx) then [] else frees_node idx ∷ []

-- `for(i = 0; i < psc->client_count; ++i)`
unfoldable pub release_loop : ℕ → ℕ → Option Server → List Release
unfolding remove_client
release_loop zero i psc = []
release_loop (suc left) i psc = freed_node psc i ++ release_loop left (i + 1) (remove_client psc i)

-- `svpn_server_release`
unfoldable pub server_release : Option Server → ℤ → ℤ → ℤ × List Release
unfolding release_loop
server_release none tun_fd sock_fd = (negsuc 0, [])
server_release (some psc) tun_fd sock_fd = (
  pos 0,
  closes tun_fd ∷ closes sock_fd ∷ release_loop psc.client_count 0 (some psc)
      ++ frees_list ∷ frees_server ∷ [],
)

-- The places from `i` on that have a client.
abbrev pub occupied : ℕ → ℕ → List (Option Node) → List ℕ
occupied zero i nodes = []
occupied (suc left) i nodes =
    (if is_free (node_at nodes i) then [] else i ∷ []) ++ occupied left (i + 1) nodes

-- Other places do not count.
occupied-set :
    (left i j : ℕ) (nodes : List (Option Node))
    → j < i
    → occupied left i (set nodes j none) ≡ occupied left i nodes
occupied-set zero i j nodes h = refl
occupied-set (suc left) i j nodes h = rw (other, occupied-set left (i + 1) j nodes (omega arith))
  where
    other : node_at (set nodes j none) i ≡ node_at nodes i
    other = ground (arith, get_or-set nodes j i none none)

freed_loop :
    (left i : ℕ) (psc : Server)
    → release_loop left i (some psc) ≡ map frees_node (occupied left i psc.node_list)
unfolding release_loop remove_client
freed_loop zero i psc = refl
freed_loop (suc left) i psc = elim (Bool-cases (is_free (node_at psc.node_list i))) [
  | inl free ↦ rw (free) (freed_loop left (i + 1) psc)
  | inr taken ↦ rw (taken) (
      ap (λ es. frees_node i ∷ es)
        (freed_loop left (i + 1) (record psc { node_list = set psc.node_list i none })
          ∙ ap (map frees_node) (occupied-set left (i + 1) i psc.node_list (omega arith))))
]

-- For a server with its list, `svpn_server_release` returns 0, closes both descriptors, frees the node
-- of each place below the count that has a client, each once and in their order, and then the list and
-- the server.
pub server_release-frees :
    (psc : Server) (tun_fd sock_fd : ℤ)
    → server_release (some psc) tun_fd sock_fd ≡ (
      pos 0,
      closes tun_fd ∷ closes sock_fd ∷ map frees_node (occupied psc.client_count 0 psc.node_list)
          ++ frees_list ∷ frees_server ∷ [],
    )
unfolding server_release
server_release-frees psc tun_fd sock_fd = rw (freed_loop psc.client_count 0 psc)
