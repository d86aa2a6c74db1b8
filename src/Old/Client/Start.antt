-- ===== src/Old/Client/Start.antt =====
-- The start of the older clients: `svpn_init`, with `svpn_tun_create` and `svpn_sock_create` of
-- old-code/old/linux/svpn_fd.c and old-code/old/osx/svpn_fd.c. What the system calls return is an
-- argument; messages, socket options and the signal handler are left out.
use s_vpn.Common.{
  ℕ, List, [], ◌∷◌, ◌++◌, replicate, ◌==◌, if◌then◌else◌, Bool, false, Option, none, some,
}
use s_vpn.Common.Int.{ℤ, pos, negsuc}
use s_vpn.Crypt.{CodeTable}
use s_vpn.Md5.{Md5Ctx}
use s_vpn.Fd.{FdEvent, opened, closed, is_negative}
use s_vpn.Old.Table.{build_timed_table}
use s_vpn.Old.Client.{SvpnClient}

-- The result of `svpn_tun_create`, and the descriptors.
pub record Tun : Type 0 where
  pub result : ℤ
  pub events : List FdEvent

-- `svpn_tun_create` of Linux, from the results of `open` and `ioctl`.
unfoldable pub linux_tun_create : ℤ → ℤ → Tun
linux_tun_create fd err =
    if is_negative fd
    then (record { result = fd; events = [] })
    else (if is_negative err
        then (record { result = err; events = opened fd ∷ closed fd ∷ [] })
        else (record { result = fd; events = opened fd ∷ [] }))

abbrev pub is_minus_one : ℤ → Bool
is_minus_one (pos n) = false
is_minus_one (negsuc n) = n == 0

-- `svpn_tun_create` of OS X, from the results of `socket`, `ioctl` and `connect`.
unfoldable pub osx_tun_create : ℤ → ℤ → ℤ → Tun
osx_tun_create s info connected =
    if is_negative s
    then (record { result = negsuc 0; events = [] })
    else (if is_minus_one info
        then (record { result = negsuc 0; events = opened s ∷ closed s ∷ [] })
        else (if is_minus_one connected
            then (record { result = negsuc 0; events = opened s ∷ closed s ∷ [] })
            else (record { result = s; events = opened s ∷ [] })))

-- `svpn_sock_create` of both, from the results of `socket` and `bind`.
unfoldable pub sock_create : ℤ → ℤ → ℤ × List FdEvent
sock_create socket_fd bind_result =
    if is_negative socket_fd
    then (negsuc 0, [])
    else (if is_negative bind_result
        then (negsuc 1, opened socket_fd ∷ [])
        else (pos 0, opened socket_fd ∷ []))

-- What `svpn_init` returns, and the descriptors.
pub record Started : Type 0 where
  pub client : Option SvpnClient
  pub events : List FdEvent

-- From `svpn_tun_create` on.
unfoldable pub init_tun : ℤ → Tun → List ℕ → CodeTable → List FdEvent → Started
init_tun socket_fd t server_addr table events =
    if is_negative t.result
    then (record { client = none; events = events ++ (t.events ++ (closed socket_fd ∷ [])) })
    else (record {
      client = some (record {
        sock_fd = socket_fd;
        server_addr = server_addr;
        tun_fd = t.result;
        recv_thread_on = false;
        send_thread_on = false;
        table = table;
      });
      events = events ++ t.events;
    })

-- The server's `struct sockaddr_in` from `inet_addr` and the port, and the stack below `BuildTable`.
module _ (sockaddr : List ℕ → ℕ → List ℕ) (stack : Md5Ctx) (md : List ℕ) where
  -- `svpn_init`, from the results of `socket` and `bind` and what `svpn_tun_create` does.
  unfoldable pub svpn_init : ℤ → ℤ → Tun → List ℕ → ℕ → List ℕ → ℕ → Started
  unfolding sock_create init_tun
  svpn_init socket_fd bind_result t addr port md5 timestamp =
      let table =
        build_timed_table stack md (record { encode = replicate 256 0; decode = replicate 256 0 })
          md5 timestamp in
      let (result, events) = sock_create socket_fd bind_result in
      if is_negative result
      then (record { client = none; events = events })
      else init_tun socket_fd t (sockaddr addr port) table events
