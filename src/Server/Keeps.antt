-- ===== src/Server/Keeps.antt =====
-- What the parts of the select loop keep: the net, the users, their tables and the buffers.
use s_vpn.Common.{
  ℕ, ◌≡◌, refl, ◌∙◌, ap, arith, List, length, get_or-set, length-set, get_or-out, ◌==◌,
  if◌then◌else◌, Bool-cases, inl, inr, ltb, ◌&&◌, true, false, ℕ_discrete, Option, none, some,
}
use s_vpn.Server.Loop.{ClientNode, SvpnServer, Loop, bytes_eq, client_at, relocate}
use s_vpn.Crypt.{CodeTable}

abbrev pub table_of : Option ClientNode → Option CodeTable
table_of none = none
table_of (some node) = some node.table

-- A user's table, if there is such a user.
abbrev pub table_at : SvpnServer → ℕ → Option CodeTable
table_at srv uid = table_of (client_at srv uid)

pub record Keeps (s s' : Loop) : Type 0 where
  pub same_net : s'.server.local_addr ≡ s.server.local_addr
  pub same_count : length s'.server.clients ≡ length s.server.clients
  pub same_tables : (uid : ℕ) → table_at s'.server uid ≡ table_at s.server uid
  pub same_buffer : length s'.buffer ≡ length s.buffer
  pub same_tmp : length s'.tmp_buffer ≡ length s.tmp_buffer

pub Keeps-refl : (s : Loop) → Keeps s s
Keeps-refl s = record {
  same_net = refl;
  same_count = refl;
  same_tables = λ uid. refl;
  same_buffer = refl;
  same_tmp = refl;
}

pub Keeps-trans : {s t u : Loop} → Keeps s t → Keeps t u → Keeps s u
Keeps-trans a b = record {
  same_net = b.same_net ∙ a.same_net;
  same_count = b.same_count ∙ a.same_count;
  same_tables = λ uid. b.same_tables uid ∙ a.same_tables uid;
  same_buffer = b.same_buffer ∙ a.same_buffer;
  same_tmp = b.same_tmp ∙ a.same_tmp;
}

pub client_at-relocate :
    (s : Loop) (uid : ℕ) (node : ClientNode) (j : ℕ)
    → client_at s.server uid ≡ some node
    → bytes_eq s.addr node.addr ≡ false
    → client_at (relocate s uid node).server j
      ≡ (if uid == j then some (record node { addr = s.addr }) else client_at s.server j)
unfolding relocate
client_at-relocate s uid node j known moved =
    rw moved
      (get_or-set s.server.clients uid j (some (record node { addr = s.addr })) none ∙ rw inside)
  where
    inside : (uid == j && ltb uid (length s.server.clients)) ≡ (uid == j)
    inside = ground (arith, get_or-out s.server.clients uid none)

pub relocate-Keeps :
    (s : Loop) (uid : ℕ) (node : ClientNode)
    → client_at s.server uid ≡ some node
    → Keeps s (relocate s uid node)
relocate-Keeps s uid node known = elim (Bool-cases (bytes_eq s.addr node.addr)) [
  | inl same ↦ rw (here same) (Keeps-refl s)
  | inr moved ↦ record {
    same_net = unfold relocate in rw moved;
    same_count = unfold relocate in rw moved (length-set s.server.clients uid _);
    same_tables = λ j. ap table_of (client_at-relocate s uid node j known moved) ∙ tables j;
    same_buffer = unfold relocate in rw moved;
    same_tmp = unfold relocate in rw moved;
  }
]
  where
    here : bytes_eq s.addr node.addr ≡ true → relocate s uid node ≡ s
    here same = unfold relocate in rw same

    tables :
        (j : ℕ)
        → table_of (if uid == j then some (record node { addr = s.addr }) else client_at s.server j)
          ≡ table_at s.server j
    tables j = elim (ℕ_discrete uid j) [
      | yes e ↦ rw (if_same e, ← e, known)
      | no n ↦ rw (if_other n)
    ]
      where
        if_same : uid ≡ j → (uid == j) ≡ true
        if_same e = ground arith

        if_other : ¬ (uid ≡ j) → (uid == j) ≡ false
        if_other n = ground arith

-- New contents of the two arrays, and a new sender.
pub refill :
    {s t : Loop} (buffer tmp addr : List ℕ)
    → Keeps s t
    → length buffer ≡ length t.buffer
    → length tmp ≡ length t.tmp_buffer
    → Keeps s (record t { buffer = buffer; tmp_buffer = tmp; addr = addr })
refill buffer tmp addr k e f = record {
  same_net = k.same_net;
  same_count = k.same_count;
  same_tables = k.same_tables;
  same_buffer = e ∙ k.same_buffer;
  same_tmp = f ∙ k.same_tmp;
}
