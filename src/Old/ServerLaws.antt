-- ===== src/Old/ServerLaws.antt =====
-- The list of clients: the free index, and a client that is added, found and removed.
use s_vpn.Common.{
  ℕ, zero, suc, ◌+◌, ◌-◌, ◌≤◌, ◌<◌, ◌≡◌, refl, ap, arith, List, [], ◌∷◌, length, set, get_or-set,
  ◌==◌, Bool-cases, inl, inr, ltb, ◌&&◌, Bool, true, false, ℕ_discrete, Option, none, some,
}
use s_vpn.Common.Int.{ℤ, pos, negsuc}
use s_vpn.Md5.{Md5Ctx}
use s_vpn.Old.Server.{
  Node, Server, node_at, is_free, has_address, available_loop, available_index, match_loop,
  note_port, server_match, remove_client, new_node, add_client,
}

-- What the index tells of the list, where `none` is the end of the loop.
abbrev pub IsFirst : (Option Node → Bool) → List (Option Node) → ℕ → ℕ → ℤ → Type 0
IsFirst test nodes from count (pos i) =
    (from ≤ i)
    × (i < count)
    × (test (node_at nodes i) ≡ true)
    × ((j : ℕ) → from ≤ j → j < i → test (node_at nodes j) ≡ false)
IsFirst test nodes from count (negsuc n) =
    (j : ℕ) → from ≤ j → j < count → test (node_at nodes j) ≡ false

-- One more place before the search, which fails the test.
IsFirst-before :
    (test : Option Node → Bool) (nodes : List (Option Node)) (i count : ℕ) (found : ℤ)
    → test (node_at nodes i) ≡ false
    → IsFirst test nodes (i + 1) count found
    → IsFirst test nodes i count found
IsFirst-before test nodes i count (pos k) fails (low, high, hit, none_before) = (
  omega (arith, low),
  high,
  hit,
  λ j h h'. elim (ℕ_discrete i j) [
    | yes e ↦ rw (← e) fails
    | no e ↦ none_before j (omega (arith, e)) h'
  ],
)
IsFirst-before test nodes i count (negsuc n) fails all =
    λ j h h'. elim (ℕ_discrete i j) [ yes e ↦ rw (← e) fails | no e ↦ all j (omega (arith, e)) h' ]

available_loop-IsFirst :
    (left i : ℕ) (nodes : List (Option Node))
    → IsFirst is_free nodes i (i + left) (available_loop left i nodes)
unfolding available_loop
available_loop-IsFirst zero i nodes = λ j h h'. absurd (omega arith)
available_loop-IsFirst (suc left) i nodes = elim (Bool-cases (is_free (node_at nodes i))) [
  | inl hit ↦ rw hit (omega arith, omega arith, hit, λ j h h'. absurd (omega arith))
  | inr miss ↦ rw miss (
      IsFirst-before is_free nodes i _ _ miss
        (rw shift (available_loop-IsFirst left (i + 1) nodes)))
]
  where
    shift : i + suc left ≡ i + 1 + left
    shift = omega arith

match_loop-IsFirst :
    (left i : ℕ) (nodes : List (Option Node)) (s_addr : ℕ)
    → IsFirst (has_address s_addr) nodes i (i + left) (match_loop left i nodes s_addr)
unfolding match_loop
match_loop-IsFirst zero i nodes s_addr = λ j h h'. absurd (omega arith)
match_loop-IsFirst (suc left) i nodes s_addr =
    elim (Bool-cases (has_address s_addr (node_at nodes i))) [
      | inl hit ↦ rw hit (omega arith, omega arith, hit, λ j h h'. absurd (omega arith))
      | inr miss ↦ rw miss (
          IsFirst-before (has_address s_addr) nodes i _ _ miss
            (rw shift (match_loop-IsFirst left (i + 1) nodes s_addr)))
    ]
  where
    shift : i + suc left ≡ i + 1 + left
    shift = omega arith

IsFirst-count :
    (test : Option Node → Bool) (nodes : List (Option Node)) (count count' : ℕ) (found : ℤ)
    → count ≡ count'
    → IsFirst test nodes 2 count found
    → IsFirst test nodes 2 count' found
IsFirst-count test nodes count count' found e first = rw (← e) first

-- With at least two places, `svpn_server_available_index` gives the first free place from 2 on,
-- below the count, or -1, and then there is none.
pub available_index-IsFirst :
    (psc : Server)
    → 2 ≤ psc.client_count
    → IsFirst is_free psc.node_list 2 psc.client_count (available_index (some psc))
unfolding available_index
available_index-IsFirst psc h =
    IsFirst-count is_free psc.node_list _ psc.client_count _ count
      (available_loop-IsFirst (psc.client_count - 2) 2 psc.node_list)
  where
    count : 2 + (psc.client_count - 2) ≡ psc.client_count
    count = omega arith

-- With at least two places, `svpn_server_match` gives the first place from 2 on, below the count,
-- whose client has the address, and stores the port there; or a negative number, and then no
-- client has the address and nothing changes.
server_match-IsFirst :
    (psc : Server) (s_addr sin_port : ℕ)
    → 2 ≤ psc.client_count
    → IsFirst
        (has_address s_addr)
        psc.node_list
        2
        psc.client_count
        (server_match (some psc) s_addr sin_port).0
      × ((server_match (some psc) s_addr sin_port).1
          ≡ some (note_port psc sin_port (server_match (some psc) s_addr sin_port).0))
unfolding server_match
server_match-IsFirst psc s_addr sin_port h = (
  IsFirst-count (has_address s_addr) psc.node_list _ psc.client_count _ count
      (match_loop-IsFirst (psc.client_count - 2) 2 psc.node_list s_addr),
  refl,
)
  where
    count : 2 + (psc.client_count - 2) ≡ psc.client_count
    count = omega arith

set_back :
    (nodes : List (Option Node)) (i : ℕ) (v : Option Node)
    → node_at nodes i ≡ none
    → set (set nodes i v) i none ≡ nodes
set_back [] i v e = refl
set_back (x ∷ xs) zero v e = rw e refl
set_back (x ∷ xs) (suc i) v e = ap (λ ys. x ∷ ys) (set_back xs i v e)

free_none : (o : Option Node) → o ≡ none → is_free o ≡ true
free_none o e = rw e refl

-- At a free place of the list, `svpn_server_add_client` returns 0, a second one returns -2 and
-- changes nothing, and `svpn_server_remove_client` takes the server back to what it was.
pub remove_client-add_client :
    (inet_addr : List ℕ → ℕ) (stack : Md5Ctx) (md : List ℕ) (psc : Server) (idx : ℕ)
    (addr pmd5 addr' pmd5' : List ℕ) (timestamp timestamp' : ℕ)
    → idx < length psc.node_list
    → node_at psc.node_list idx ≡ none
    → let added = add_client inet_addr stack md (some psc) idx addr pmd5 timestamp in
      (added.0 ≡ pos 0)
      × (add_client inet_addr stack md added.1 idx addr' pmd5' timestamp' ≡ (negsuc 1, added.1))
      × (remove_client added.1 idx ≡ some psc)
unfolding add_client remove_client
remove_client-add_client inet_addr stack md psc idx addr pmd5 addr' pmd5' timestamp timestamp' h e =
    rw (free_none _ e, taken)
      (
        refl,
        refl,
        ap (λ nodes. some (record psc { node_list = nodes })) (set_back psc.node_list idx _ e),
      )
  where
    node : Node
    node = new_node inet_addr stack md addr pmd5 timestamp

    taken : is_free (node_at (set psc.node_list idx (some node)) idx) ≡ false
    taken = rw (get_or-set psc.node_list idx idx (some node) none, hit) refl
      where
        hit : (idx == idx && ltb idx (length psc.node_list)) ≡ true
        hit = ground arith
