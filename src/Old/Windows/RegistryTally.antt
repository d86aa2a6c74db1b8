-- ===== src/Old/Windows/RegistryTally.antt =====
-- What the query of one subkey counts, and the keys that it opens.
use s_vpn.Common.{
  ℕ, ◌+◌, ◌≤◌, ◌<◌, ◌≡◌, refl, arith, List, [], ◌∷◌, Bool-cases, inl, inr, ltb, ◌&&◌, Bool, true,
  false, Option, none, some,
}
use s_vpn.Common.Int.{ℤ}
use s_vpn.Fd.{left_open_from}
use s_vpn.Fd.Balance.{remove-first, Balances-within}
use s_vpn.Server.Loop.{bytes_eq}
use s_vpn.Old.Windows.Registry.{
  max_tun_adapters, fits_suffix, target_component_id, TunAdaptersInfo, SubKey, Queried, set_guid,
  query_connection, query_instance, query_component, close_after, query_handle, query_key,
}

abbrev pub is_some : {A : Type 0} → Option A → Bool
is_some none = false
is_some (some a) = true

abbrev pub one_if : Bool → ℕ
one_if true = 1
one_if false = 0

abbrev pub is_target : Option (List ℕ) → Bool
is_target none = false
is_target (some id) = bytes_eq id target_component_id

-- A subkey of the component with an instance's id, and one with a named connection too.
abbrev pub is_instance : SubKey → Bool
is_instance key = key.named && is_some key.handle && is_target key.comp_id && is_some key.net_cfg_id

abbrev pub is_adapter : SubKey → Bool
is_adapter key = is_instance key && is_some key.connection && is_some key.conn_name

-- The instance's id of each subkey fits its buffer with what is put behind it.
abbrev pub IdFits : Option (List ℕ) → Type 0
IdFits none = Unit
IdFits (some id) = fits_suffix id ≡ true

abbrev pub AllIdsFit : List SubKey → Type 0
AllIdsFit [] = Unit
AllIdsFit (key ∷ keys) = IdFits key.net_cfg_id × AllIdsFit keys

abbrev pub number : (SubKey → Bool) → List SubKey → ℕ
number test [] = 0
number test (key ∷ keys) = one_if (test key) + number test keys

-- A part of the query from a count of adapters on: it ends with its keys closed and so many more
-- adapters, or it has met more instances than the array takes.
abbrev pub Tallies : ℕ → ℕ → ℕ → Option Queried → Type 0
Tallies before adapters instances none = max_tun_adapters < before + instances
Tallies before adapters instances (some (info, es)) =
    ((fds : List ℤ) → left_open_from fds es ≡ fds)
    × (info.count ≡ before + adapters)
    × (info.count ≤ max_tun_adapters)

pub close_after-Tallies :
    (before adapters instances : ℕ) (fd : ℤ) (o : Option Queried)
    → Tallies before adapters instances o
    → Tallies before adapters instances (close_after fd o)
close_after-Tallies before adapters instances fd none h = h
close_after-Tallies before adapters instances fd (some (info, es)) (h, count, fits) =
    (Balances-within fd es h, count, fits)

query_connection-Tallies :
    (info : TunAdaptersInfo) (conn : Option ℤ) (name : Option (List ℕ))
    → info.count < max_tun_adapters
    → Tallies info.count
        (one_if (is_some conn && is_some name))
        1
        (some (query_connection info conn name))
query_connection-Tallies info none name room = ((λ fds. refl), omega arith, omega arith)
query_connection-Tallies info (some conn) none room = (remove-first conn, omega arith, omega arith)
query_connection-Tallies info (some conn) (some name) room = (remove-first conn, refl, omega arith)

module _ (info : TunAdaptersInfo) (room : info.count ≤ max_tun_adapters) where
  pub unchanged : Tallies info.count 0 0 (some (info, []))
  unchanged = ((λ fds. refl), omega arith, room)

  query_instance-Tallies :
      (key : SubKey) (id : Option (List ℕ))
      → IdFits id
      → Tallies info.count
          (one_if (is_some id && is_some key.connection && is_some key.conn_name))
          (one_if (is_some id))
          (query_instance info key id)
  query_instance-Tallies key none fits = unchanged
  query_instance-Tallies key (some id) fits = elim (Bool-cases (ltb info.count max_tun_adapters)) [
    | inl h ↦
        rw (h, fits)
          (query_connection-Tallies (set_guid info id) key.connection key.conn_name (ground arith))
    | inr h ↦ rw (h) (ground arith)
  ]

  query_component-Tallies :
      (key : SubKey) (id : Option (List ℕ))
      → IdFits key.net_cfg_id
      → Tallies info.count
          (one_if (
            is_target id
            && is_some key.net_cfg_id
            && is_some key.connection
            && is_some key.conn_name))
          (one_if (is_target id && is_some key.net_cfg_id))
          (query_component info key id)
  query_component-Tallies key none fits = unchanged
  query_component-Tallies key (some id) fits = elim (Bool-cases (bytes_eq id target_component_id)) [
    | inl h ↦ rw (h) (query_instance-Tallies key key.net_cfg_id fits)
    | inr h ↦ rw (h) unchanged
  ]

  query_handle-Tallies :
      (key : SubKey) (sub : Option ℤ)
      → IdFits key.net_cfg_id
      → Tallies info.count
          (one_if (
            is_some sub
            && is_target key.comp_id
            && is_some key.net_cfg_id
            && is_some key.connection
            && is_some key.conn_name))
          (one_if (is_some sub && is_target key.comp_id && is_some key.net_cfg_id))
          (query_handle info key sub)
  query_handle-Tallies key none fits = unchanged
  query_handle-Tallies key (some sub) fits =
      close_after-Tallies _ _ _ sub _ (query_component-Tallies key key.comp_id fits)

  pub query_key-Tallies :
      (key : SubKey)
      → IdFits key.net_cfg_id
      → Tallies info.count (one_if (is_adapter key)) (one_if (is_instance key)) (query_key info key)
  unfolding query_key
  query_key-Tallies key fits = elim (Bool-cases key.named) [
    | inl h ↦ rw (h) (query_handle-Tallies (record key { named = true }) key.handle fits)
    | inr h ↦ rw (h) unchanged
  ]
