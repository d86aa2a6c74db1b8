-- ===== src/Old/Server.antt =====
-- The list of clients of old-code/server/svpn_server.c; `none` for the server is NULL.
use s_vpn.Common.{
  ℕ, zero, suc, ◌+◌, ◌-◌, ◌*◌, ◌/◌, ◌%◌, List, get_or, set, replicate, ◌==◌, if◌then◌else◌, Bool,
  true, false, Option, none, some,
}
use s_vpn.Common.Int.{ℤ, pos, negsuc}
use s_vpn.Crypt.{CodeTable}
use s_vpn.Md5.{Md5Ctx}
use s_vpn.Old.Table.{build_timed_table}

-- `struct svpn_client_node`: the address, the port in the order of the network, the table.
pub record Node : Type 0 where
  pub s_addr : ℕ
  pub sin_port : ℕ
  pub table : CodeTable

pub record Server : Type 0 where
  pub client_count : ℕ
  pub node_list : List (Option Node)

abbrev pub node_at : List (Option Node) → ℕ → Option Node
node_at nodes i = get_or nodes i none

abbrev pub is_free : Option Node → Bool
is_free none = true
is_free (some node) = false

abbrev pub has_address : ℕ → Option Node → Bool
has_address s_addr none = false
has_address s_addr (some node) = node.s_addr == s_addr

-- The loop of `svpn_server_available_index`.
unfoldable pub available_loop : ℕ → ℕ → List (Option Node) → ℤ
available_loop zero i nodes = negsuc 0
available_loop (suc left) i nodes =
    let rest = available_loop left (i + 1) nodes in
    if is_free (node_at nodes i) then pos i else rest

-- `svpn_server_available_index`
unfoldable pub available_index : Option Server → ℤ
unfolding available_loop
available_index none = negsuc 0
available_index (some psc) = available_loop (psc.client_count - 2) 2 psc.node_list

-- The loop of `svpn_server_match`: the index of a client with the address.
unfoldable pub match_loop : ℕ → ℕ → List (Option Node) → ℕ → ℤ
match_loop zero i nodes s_addr = negsuc 1
match_loop (suc left) i nodes s_addr =
    let rest = match_loop left (i + 1) nodes s_addr in
    if has_address s_addr (node_at nodes i) then pos i else rest

abbrev pub with_port : ℕ → Option Node → Option Node
with_port sin_port none = none
with_port sin_port (some node) = some (record node { sin_port = sin_port })

abbrev pub note_port : Server → ℕ → ℤ → Server
note_port psc sin_port (negsuc n) = psc
note_port psc sin_port (pos i) = record psc {
  node_list = set psc.node_list i (with_port sin_port (node_at psc.node_list i));
}

-- `svpn_server_match`, which stores the port of the client that it finds.
unfoldable pub server_match : Option Server → ℕ → ℕ → ℤ × Option Server
unfolding match_loop
server_match none s_addr sin_port = (negsuc 0, none)
server_match (some psc) s_addr sin_port =
    let found = match_loop (psc.client_count - 2) 2 psc.node_list s_addr in
    (found, some (note_port psc sin_port found))

-- `svpn_server_remove_client`, whose result has no value but for NULL.
unfoldable pub remove_client : Option Server → ℕ → Option Server
remove_client none idx = none
remove_client (some psc) idx =
    if is_free (node_at psc.node_list idx)
    then some psc
    else some (record psc { node_list = set psc.node_list idx none })

module _ (inet_addr : List ℕ → ℕ) (stack : Md5Ctx) (md : List ℕ) where
  -- The node that `svpn_server_add_client` stores; the port is 33333 with its bytes swapped.
  unfoldable pub new_node : List ℕ → List ℕ → ℕ → Node
  new_node addr pmd5 timestamp = record {
    s_addr = inet_addr addr;
    sin_port = 33333 % 256 * 256 + 33333 / 256;
    table =
        build_timed_table stack md (record { encode = replicate 256 0; decode = replicate 256 0 })
          pmd5 timestamp;
  }

  -- `svpn_server_add_client`
  unfoldable pub add_client : Option Server → ℕ → List ℕ → List ℕ → ℕ → ℤ × Option Server
  unfolding new_node
  add_client none idx addr pmd5 timestamp = (negsuc 0, none)
  add_client (some psc) idx addr pmd5 timestamp =
      if is_free (node_at psc.node_list idx)
      then (
        pos 0,
        some (record psc {
          node_list = set psc.node_list idx (some (new_node addr pmd5 timestamp));
        }),
      )
      else (negsuc 1, some psc)
