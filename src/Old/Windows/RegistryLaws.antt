-- ===== src/Old/Windows/RegistryLaws.antt =====
-- The keys that the query opens, and the adapters that it counts.
use s_vpn.Common.{
  ℕ, ◌+◌, ◌≤◌, ◌≡◌, refl, arith, List, [], ◌∷◌, ◌&&◌, Bool, true, false, Option, none, some,
}
use s_vpn.Common.Int.{ℤ}
use s_vpn.Fd.{FdEvent}
use s_vpn.Fd.Balance.{Balances, Balances-append}
use s_vpn.Old.Windows.Registry.{
  max_tun_adapters, TunAdaptersInfo, SubKey, Queried, Registry, query_key, events_first, query_rest,
  query_keys, query_sub_keys, query_connections, query_adapters, query_tun_adapter_info,
}
use s_vpn.Old.Windows.RegistryTally.{
  is_some, one_if, is_instance, is_adapter, AllIdsFit, number, Tallies, close_after-Tallies,
  unchanged, query_key-Tallies,
}

first_of : (a b : Bool) → one_if (a && b) ≤ one_if a
first_of true true = omega arith
first_of true false = omega arith
first_of false b = omega arith

adapter-IsInstance : (key : SubKey) → one_if (is_adapter key) ≤ one_if (is_instance key)
adapter-IsInstance key = omega (
  arith,
  first_of (is_instance key) (is_some key.connection),
  first_of (is_instance key && is_some key.connection) (is_some key.conn_name),
)

events_first-Tallies :
    (before count adapters instances adapters' instances' : ℕ) (es : List FdEvent)
    (o : Option Queried)
    → Balances es
    → count ≡ before + adapters
    → adapters ≤ instances
    → Tallies count adapters' instances' o
    → Tallies before (adapters + adapters') (instances + instances') (events_first es o)
events_first-Tallies before count adapters instances adapters' instances' es none b e le h =
    omega arith
events_first-Tallies before count adapters instances adapters' instances' es (some (info, fs)) b e
      le (b', e', fits) =
    (Balances-append es fs b b', omega arith, fits)

query_rest-Tallies :
    (before adapters instances adapters' instances' : ℕ) (o : Option Queried)
    (next : TunAdaptersInfo → Option Queried)
    → adapters ≤ instances
    → Tallies before adapters instances o
    → ((info : TunAdaptersInfo)
        → info.count ≤ max_tun_adapters
        → Tallies info.count adapters' instances' (next info))
    → Tallies before (adapters + adapters') (instances + instances') (query_rest o next)
query_rest-Tallies before adapters instances adapters' instances' none next le h k = omega arith
query_rest-Tallies before adapters instances adapters' instances' (some (info, es)) next le
      (b, e, fits) k =
    events_first-Tallies before info.count adapters instances adapters' instances' es (next info) b
      e le (k info fits)

pub query_keys-Tallies :
    (info : TunAdaptersInfo) (keys : List SubKey)
    → info.count ≤ max_tun_adapters
    → AllIdsFit keys
    → Tallies info.count (number is_adapter keys) (number is_instance keys) (query_keys info keys)
unfolding query_keys
query_keys-Tallies info [] room fit = ((λ fds. refl), omega arith, room)
query_keys-Tallies info (key ∷ keys) room fit =
    query_rest-Tallies info.count _ _ _ _ (query_key info key) (λ info'. query_keys info' keys)
      (adapter-IsInstance key) (query_key-Tallies info room key fit.0)
      (λ info' room'. query_keys-Tallies info' keys room' fit.1)

-- The subkeys that the query goes through.
abbrev pub reached : Option ℤ → List SubKey → List SubKey
reached none keys = []
reached (some handle) keys = keys

abbrev pub counted : Option (List SubKey) → List SubKey
counted none = []
counted (some keys) = keys

abbrev pub sub_keys_of : Registry → List SubKey
sub_keys_of reg = reached reg.adapters_key (reached reg.connections_key (counted reg.sub_keys))

query_sub_keys-Tallies :
    (info : TunAdaptersInfo) (keys : Option (List SubKey))
    → info.count ≤ max_tun_adapters
    → AllIdsFit (counted keys)
    → Tallies info.count
        (number is_adapter (counted keys))
        (number is_instance (counted keys))
        (query_sub_keys info keys)
query_sub_keys-Tallies info none room fit = unchanged info room
query_sub_keys-Tallies info (some keys) room fit = query_keys-Tallies info keys room fit

module _ (info : TunAdaptersInfo) (reg : Registry) (room : info.count ≤ max_tun_adapters) where
  query_connections-Tallies :
      (conns : Option ℤ)
      → AllIdsFit (reached conns (counted reg.sub_keys))
      → Tallies info.count
          (number is_adapter (reached conns (counted reg.sub_keys)))
          (number is_instance (reached conns (counted reg.sub_keys)))
          (query_connections info reg conns)
  query_connections-Tallies none fit = unchanged info room
  query_connections-Tallies (some conns) fit =
      close_after-Tallies _ _ _ conns _ (query_sub_keys-Tallies info reg.sub_keys room fit)

  query_adapters-Tallies :
      (keys : Option ℤ)
      → AllIdsFit (reached keys (reached reg.connections_key (counted reg.sub_keys)))
      → Tallies info.count
          (number is_adapter (reached keys (reached reg.connections_key (counted reg.sub_keys))))
          (number is_instance (reached keys (reached reg.connections_key (counted reg.sub_keys))))
          (query_adapters info reg keys)
  query_adapters-Tallies none fit = unchanged info room
  query_adapters-Tallies (some keys) fit =
      close_after-Tallies _ _ _ keys _ (query_connections-Tallies reg.connections_key fit)

-- If no subkey's instance's id has more than 115 characters, whatever else the registry answers, the
-- query of the adapters either comes to its end, with every key closed that it opened and `Count`,
-- which is at most 7, the number of subkeys of the component that have an instance's id and a named
-- connection; or more than 7 subkeys of the component have an instance's id.
pub query_tun_adapter_info-Tallies :
    (info : TunAdaptersInfo) (reg : Registry)
    → AllIdsFit (sub_keys_of reg)
    → Tallies 0
        (number is_adapter (sub_keys_of reg))
        (number is_instance (sub_keys_of reg))
        (query_tun_adapter_info info reg)
unfolding query_tun_adapter_info
query_tun_adapter_info-Tallies info reg fit =
    query_adapters-Tallies (record info { count = 0 }) reg (omega arith) reg.adapters_key fit
