-- ===== src/Old/Windows/Registry.antt =====
-- `QueryTunAdapterInfo` of old-code/old/win32/Wtaet/tun.cpp. What the registry answers is an
-- argument; a string is its characters, and messages are left out.
use s_vpn.Common.{
  ℕ, ◌+◌, List, [], ◌∷◌, ◌++◌, length, get_or, set, if◌then◌else◌, leb, ltb, ◌*◌, Bool, Option,
  none, some,
}
use s_vpn.Common.Int.{ℤ}
use s_vpn.Fd.{FdEvent, opened, closed}
use s_vpn.Md5.{copy}
use s_vpn.Server.Loop.{bytes_eq}

-- MAX_TUN_ADAPTERS and TARGET_COMPONENT_ID
abbrev pub max_tun_adapters : ℕ
max_tun_adapters = 7

-- MAX_VALUE_NAME
abbrev pub max_value_name : ℕ
max_value_name = 255

abbrev pub target_component_id : List ℕ
target_component_id = 116 ∷ 97 ∷ 112 ∷ 48 ∷ 57 ∷ 48 ∷ 49 ∷ []

pub record TunAdapterInfo : Type 0 where
  pub guid : List ℕ
  pub friendly_name : List ℕ

pub record TunAdaptersInfo : Type 0 where
  pub count : ℕ
  pub adapters : List TunAdapterInfo

-- What the calls for one subkey give: whether it has a name, its handle, its component's id, its
-- instance's id, the handle of its connection, and the connection's name.
pub record SubKey : Type 0 where
  pub named : Bool
  pub handle : Option ℤ
  pub comp_id : Option (List ℕ)
  pub net_cfg_id : Option (List ℕ)
  pub connection : Option ℤ
  pub conn_name : Option (List ℕ)

abbrev pub Queried : Type 0
Queried = TunAdaptersInfo × List FdEvent

abbrev pub adapter_at : TunAdaptersInfo → TunAdapterInfo
adapter_at info = get_or info.adapters info.count (record { guid = []; friendly_name = [] })

-- `memcpy(&info->Adapters[info->Count].Guid, netCfgID, cbData);`
abbrev pub set_guid : TunAdaptersInfo → List ℕ → TunAdaptersInfo
set_guid info id =
    let adapter = adapter_at info in
    record info {
      adapters =
          set info.adapters info.count
            (record adapter { guid = copy (length id) adapter.guid 0 id 0 });
    }

-- The same for the name, and `info->Count++;`.
abbrev pub add_name : TunAdaptersInfo → List ℕ → TunAdaptersInfo
add_name info name =
    let adapter = adapter_at info in
    record info {
      count = info.count + 1;
      adapters =
          set info.adapters info.count
            (record adapter { friendly_name = copy (length name) adapter.friendly_name 0 name 0 });
    }

-- From `RegQueryValueEx(connKey, ...)` on.
abbrev pub query_name : TunAdaptersInfo → ℤ → Option (List ℕ) → Queried
query_name info conn none = (info, closed conn ∷ [])
query_name info conn (some name) = (add_name info name, closed conn ∷ [])

abbrev pub query_connection : TunAdaptersInfo → Option ℤ → Option (List ℕ) → Queried
query_connection info none name = (info, [])
query_connection info (some conn) name =
    let (info', es) = query_name info conn name in (info', opened conn ∷ es)

-- `_tcscat` puts the eleven characters of "\Connection" and the end of the string behind the
-- instance's id, in the 255 bytes of `netCfgID`; the build has characters of two bytes.
abbrev pub fits_suffix : List ℕ → Bool
fits_suffix id = leb (2 * (length id + 12)) max_value_name

-- For a subkey of the component: `none` is a write past the end of `Adapters` or of `netCfgID`.
abbrev pub query_instance : TunAdaptersInfo → SubKey → Option (List ℕ) → Option Queried
query_instance info key none = some (info, [])
query_instance info key (some id) =
    if ltb info.count max_tun_adapters
    then (if fits_suffix id
        then some (query_connection (set_guid info id) key.connection key.conn_name)
        else none)
    else none

abbrev pub query_component : TunAdaptersInfo → SubKey → Option (List ℕ) → Option Queried
query_component info key none = some (info, [])
query_component info key (some id) =
    if bytes_eq id target_component_id
    then query_instance info key key.net_cfg_id
    else some (info, [])

-- The subkey is closed on every path.
abbrev pub close_after : ℤ → Option Queried → Option Queried
close_after sub none = none
close_after sub (some (info, es)) = some (info, opened sub ∷ es ++ closed sub ∷ [])

abbrev pub query_handle : TunAdaptersInfo → SubKey → Option ℤ → Option Queried
query_handle info key none = some (info, [])
query_handle info key (some sub) = close_after sub (query_component info key key.comp_id)

-- A round of the loop over the subkeys.
unfoldable pub query_key : TunAdaptersInfo → SubKey → Option Queried
query_key info key = if key.named then query_handle info key key.handle else some (info, [])

abbrev pub events_first : List FdEvent → Option Queried → Option Queried
events_first es none = none
events_first es (some (info, fs)) = some (info, es ++ fs)

abbrev pub query_rest : Option Queried → (TunAdaptersInfo → Option Queried) → Option Queried
query_rest none next = none
query_rest (some (info, es)) next = events_first es (next info)

unfoldable pub query_keys : TunAdaptersInfo → List SubKey → Option Queried
unfolding query_key
query_keys info [] = some (info, [])
query_keys info (key ∷ keys) = query_rest (query_key info key) (λ info'. query_keys info' keys)

-- The handles of the two keys, and the subkeys if `RegQueryInfoKey` counts them.
pub record Registry : Type 0 where
  pub adapters_key : Option ℤ
  pub connections_key : Option ℤ
  pub sub_keys : Option (List SubKey)

abbrev pub query_sub_keys : TunAdaptersInfo → Option (List SubKey) → Option Queried
query_sub_keys info none = some (info, [])
query_sub_keys info (some keys) = query_keys info keys

abbrev pub query_connections : TunAdaptersInfo → Registry → Option ℤ → Option Queried
query_connections info reg none = some (info, [])
query_connections info reg (some conns) = close_after conns (query_sub_keys info reg.sub_keys)

abbrev pub query_adapters : TunAdaptersInfo → Registry → Option ℤ → Option Queried
query_adapters info reg none = some (info, [])
query_adapters info reg (some keys) =
    close_after keys (query_connections info reg reg.connections_key)

-- `QueryTunAdapterInfo`
unfoldable pub query_tun_adapter_info : TunAdaptersInfo → Registry → Option Queried
unfolding query_keys
query_tun_adapter_info info reg = query_adapters (record info { count = 0 }) reg reg.adapters_key
