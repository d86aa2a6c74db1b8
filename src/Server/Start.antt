-- ===== src/Server/Start.antt =====
-- The start of the server: `svpn_set_tuntxqlen`, `svpn_tun_create` and `svpn_sock_create` of
-- src/server/svpn_fd.c, `svpn_server_init` of src/server/svpn_server.c, and src/server/main_server.c.
-- What the system calls return is an argument; messages are left out.
use s_vpn.Common.{
  ℕ, List, [], ◌∷◌, ◌++◌, replicate, ◌==◌, if◌then◌else◌, ◌||◌, not, Option, none, some,
}
use s_vpn.Common.Int.{ℤ, pos, negsuc, is_zero}
use s_vpn.Fd.{FdEvent, opened, closed, is_negative}
use s_vpn.Md5.{Md5Ctx}
use s_vpn.Md5.Reference.{le_bytes}
use s_vpn.Server.Loop.{ClientNode, SvpnServer, codes}
use s_vpn.Server.Users.{Parsed, done, ◌>>=◌, Settings, Users, read_settings, init_client}

-- The results of `open`, `ioctl` and the three calls of `system` in `svpn_tun_create`, the name
-- that `ioctl` gives the device, and the socket for the length of its queue.
pub record TunCalls : Type 0 where
  pub open_result : ℤ
  pub ioctl_result : ℤ
  pub ifr_name : List ℕ
  pub ctl_fd : ℤ
  pub up : ℤ
  pub mtu : ℤ
  pub address : ℤ

-- The result, the name of the device, the descriptors, and the commands that were run.
pub record Tun : Type 0 where
  pub result : ℤ
  pub dev_name : List ℕ
  pub events : List FdEvent
  pub commands : List (List ℕ)

-- `svpn_set_tuntxqlen`
unfoldable pub set_tuntxqlen : ℤ → List FdEvent
set_tuntxqlen ctl_fd = if is_negative ctl_fd then [] else opened ctl_fd ∷ closed ctl_fd ∷ []

abbrev pub ifconfig : List ℕ → List ℕ → List ℕ
ifconfig name what = codes "ifconfig " ++ (name ++ what)

abbrev pub configured : TunCalls → List FdEvent → ℤ → List (List ℕ) → Tun
configured t events result commands = record {
  result = result;
  dev_name = t.ifr_name;
  events = events;
  commands = commands;
}

-- The three commands, one after the other as long as they give 0.
unfoldable pub configure : TunCalls → ℤ → List FdEvent → List ℕ → Tun
configure t fd events local_name =
    let up = ifconfig t.ifr_name (codes " up") in
    let mtu = ifconfig t.ifr_name (codes " mtu 1400") in
    let address = ifconfig t.ifr_name (codes " " ++ (local_name ++ codes "/24")) in
    let after = configured t events in
    if not (is_zero t.up)
    then after t.up (up ∷ [])
    else (if not (is_zero t.mtu)
        then after t.mtu (up ∷ mtu ∷ [])
        else (if not (is_zero t.address)
            then after t.address (up ∷ mtu ∷ address ∷ [])
            else after fd (up ∷ mtu ∷ address ∷ [])))

-- `svpn_tun_create`; `local_name` is what `inet_ntoa` makes of the address.
unfoldable pub tun_create : TunCalls → List ℕ → List ℕ → Tun
unfolding configure set_tuntxqlen
tun_create t dev_name local_name =
    let fd = t.open_result in
    if is_negative fd
    then (record { result = fd; dev_name = dev_name; events = []; commands = [] })
    else (if is_negative t.ioctl_result
        then (record {
          result = t.ioctl_result;
          dev_name = dev_name;
          events = opened fd ∷ closed fd ∷ [];
          commands = [];
        })
        else configure t fd (opened fd ∷ set_tuntxqlen t.ctl_fd) local_name)

-- `svpn_sock_create`: the result and the descriptors. The options of the socket are left out.
unfoldable pub sock_create : ℤ → ℤ → ℤ × List FdEvent
sock_create socket_fd bind_result =
    if is_negative socket_fd
    then (negsuc 0, [])
    else (if is_negative bind_result
        then (negsuc 0, opened socket_fd ∷ closed socket_fd ∷ [])
        else (pos 0, opened socket_fd ∷ []))

-- The world in which the server starts.
pub record World : Type 0 where
  pub file : Option (List ℕ)
  pub socket_fd : ℤ
  pub bind_result : ℤ
  pub tun : TunCalls

pub record Started : Type 0 where
  pub server : Option SvpnServer
  pub events : List FdEvent

-- After `svpn_sock_create`: the tunnel.
unfoldable pub start_tun : World → List ℕ → Settings → List FdEvent → Started
start_tun w local_name s events =
    let t = tun_create w.tun (replicate 128 0) local_name in
    if is_negative t.result
    then (record { server = none; events = events ++ (t.events ++ (closed w.socket_fd ∷ [])) })
    else (record {
      server = some (record {
        dev_name = t.dev_name;
        local_addr = le_bytes 4 s.laddr;
        sock_fd = w.socket_fd;
        server_port = s.port;
        tun_fd = t.result;
        clients = replicate 256 none;
      });
      events = events ++ t.events;
    })

unfoldable pub start_socket : World → List ℕ → Settings → Started
unfolding start_tun sock_create
start_socket w local_name s =
    let (result, events) = sock_create w.socket_fd w.bind_result in
    if is_negative result
    then (record { server = none; events = events })
    else start_tun w local_name s events

module _ (inet_addr : List ℕ → ℕ) (inet_ntoa : ℕ → List ℕ) where
  -- `svpn_server_init`
  unfoldable pub server_init : World → Option (List ℕ) → Parsed Started
  unfolding start_socket
  server_init w none = done (record { server = none; events = [] })
  server_init w (some file) = read_settings inet_addr file >>= λ s.
      if s.port == 0 || s.laddr == 0
      then done (record { server = none; events = [] })
      else done (start_socket w (inet_ntoa s.laddr) s)

  -- What `main` does: it ends with a status, or it enters the loop with a server.
  pub data Main : Type 0 where
    exits : ℤ → Main
    serves : SvpnServer → Main

  -- What `main` does with the result of `svpn_server_init_client`.
  unfoldable pub entered : SvpnServer → Option Users → Parsed Main
  entered psc none = done (exits (negsuc 0))
  entered psc (some users) = done (serves (record psc { clients = users }))

  module _ (allocated : ℕ → ClientNode) (stack : Md5Ctx) where
    -- `svpn_server_init_client` and the loop.
    unfoldable pub main_users : World → Option SvpnServer → Parsed Main
    unfolding entered
    main_users w none = done (exits (negsuc 0))
    main_users w (some psc) = init_client allocated stack w.file >>= λ users. entered psc users

    -- `main`
    unfoldable pub main : ℕ → World → Parsed Main
    unfolding main_users server_init
    main argc w =
        if argc == 2
        then (server_init w w.file >>= λ started. main_users w started.server)
        else done (exits (negsuc 0))
