-- ===== src/Old/Windows/Tun.antt =====
-- `TunDriver` of old-code/old/win32/Wtaet/tun.cpp. What the calls of Windows return is an argument;
-- messages and the event are left out.
use s_vpn.Common.{
  ℕ, List, [], ◌∷◌, byte_at, ◌==◌, if◌then◌else◌, ◌||◌, not, Bool, Option, none, some,
}
use s_vpn.Common.Int.{ℤ, pos, negsuc}
use s_vpn.Fd.{FdEvent, opened, closed}
use s_vpn.Md5.{copy}
use s_vpn.Old.Windows.Channel.{Channel, init_channel, arrive}

pub record TunDriver : Type 0 where
  pub fd : ℤ
  pub mtu : ℕ
  pub channel : Channel

-- What `CreateFileA` and the calls of `DeviceIoControl` give: the handle if it is not
-- INVALID_HANDLE_VALUE, the version (zeros if the call stores none), the MTU, and whether the two
-- last calls succeed. `memory` is what `new` finds.
pub record Device : Type 0 where
  pub handle : Option ℤ
  pub version : List ℕ
  pub mtu : ℕ
  pub config_tun : Bool
  pub media_set : Bool
  pub memory : Channel

pub record Opened : Type 0 where
  pub driver : Option TunDriver
  pub events : List FdEvent

-- `OpenDriver` from the check of the version on.
unfoldable pub check_device : Device → ℤ → Opened
check_device d fd =
    let given_up : Opened = record { driver = none; events = opened fd ∷ closed fd ∷ [] } in
    if not (byte_at d.version 0 == 9) || not (byte_at d.version 1 == 9)
    then given_up
    else (if not d.config_tun
        then given_up
        else (if not d.media_set then given_up else (record {
          driver = some (record { fd = fd; mtu = d.mtu; channel = d.memory });
          events = opened fd ∷ [];
        })))

unfoldable pub open_file : Device → Option ℤ → Opened
unfolding check_device
open_file d none = record { driver = none; events = [] }
open_file d (some fd) = check_device d fd

-- `OpenDriver` after the query of the adapters, which it only prints.
unfoldable pub open_driver : Device → Opened
unfolding open_file
open_driver d = open_file d d.handle

abbrev pub init_read : TunDriver → TunDriver
init_read t = record t { channel = init_channel t.channel }

-- What `ReadFile` does: it reads at once, goes on, or fails.
pub data Started : Type 0 where
  at_once : List ℕ → Started
  pending failed : Started

-- `BeginRead`
unfoldable pub begin_read : TunDriver → Started → ℤ × TunDriver
unfolding arrive
begin_read t (at_once bytes) =
    (pos 0, record t { channel = record (arrive t.channel bytes) { read_state = 1 } })
begin_read t pending = (pos 0, record t { channel = record t.channel { read_state = 0 } })
begin_read t failed = (negsuc 0, t)

-- The object and the caller's two variables after `EndRead`.
pub record Fetched : Type 0 where
  pub driver : TunDriver
  pub buf : List ℕ
  pub size : ℕ

-- `memcpy(buf, innerBuf, innerLength); size = innerLength;`
abbrev pub fetch : TunDriver → Channel → List ℕ → Fetched
fetch t ch buf = record {
  driver = record t { channel = record ch { read_state = 0 } };
  buf = copy ch.inner_length buf 0 ch.inner_buf 0;
  size = ch.inner_length;
}

-- Where `GetOverlappedResult` is asked: `none` is its failure.
unfoldable pub fetch_overlapped : TunDriver → List ℕ → ℕ → Option (List ℕ) → Fetched
unfolding arrive
fetch_overlapped t buf size none = record {
  driver = record t { channel = record t.channel { read_state = 0 } };
  buf = buf;
  size = size;
}
fetch_overlapped t buf size (some bytes) = fetch t (arrive t.channel bytes) buf

-- `EndRead`
unfoldable pub end_read : TunDriver → List ℕ → ℕ → Option (List ℕ) → Fetched
unfolding fetch_overlapped
end_read t buf size completed =
    if t.channel.read_state == 1
    then fetch t t.channel buf
    else fetch_overlapped t buf size completed

-- The result of `Write`, from those of `WriteFile`; the driver gets `size` bytes of `buf`.
abbrev pub write_result : Bool → ℕ → ℕ → ℤ
write_result ok written size = if not ok || not (written == size) then negsuc 0 else pos 0
