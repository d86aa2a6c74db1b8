-- ===== src/Client/Start.antt =====
-- The start of the client: `svpn_tun_create` and `svpn_sock_create` of src/client/svpn_fd.c,
-- `svpn_init` of src/client/svpn_client.c, and src/client/main_client.c. What the system calls
-- return is an argument; messages, the socket's options and the signal handler are left out.
use s_vpn.Common.{
  ℕ, ◌-◌, ◌%◌, List, [], ◌∷◌, ◌++◌, length, replicate, if◌then◌else◌, ltb, Option, none, some,
}
use s_vpn.Common.Int.{ℤ, pos, negsuc}
use s_vpn.Scan.{c_string, strlen}
use s_vpn.Crypt.{CodeTable, build_table}
use s_vpn.Md5.{Md5Ctx, md5_fast}
use s_vpn.Fd.{FdEvent, opened, closed, is_negative}
use s_vpn.Scan.{scan_number}
use s_vpn.Server.Loop.{codes}
use s_vpn.Server.Users.{to_u16}
use s_vpn.Client.Loop.{SvpnClient}

-- The world in which the client starts: the results of `socket`, `bind`, `open` and `ioctl`.
pub record World : Type 0 where
  pub socket_fd : ℤ
  pub bind_result : ℤ
  pub open_result : ℤ
  pub ioctl_result : ℤ

-- `svpn_tun_create`: the result, the string in `dev_name`, and the descriptors.
pub record Tun : Type 0 where
  pub result : ℤ
  pub dev_name : List ℕ
  pub events : List FdEvent

unfoldable pub tun_create : World → List ℕ → Tun
tun_create w dev_name =
    let fd = w.open_result in
    if is_negative fd
    then (record { result = fd; dev_name = dev_name; events = [] })
    else (if is_negative w.ioctl_result
        then (record {
          result = w.ioctl_result;
          dev_name = dev_name;
          events = opened fd ∷ closed fd ∷ [];
        })
        else (record { result = fd; dev_name = codes "/dev/net/tun"; events = opened fd ∷ [] }))

-- `svpn_sock_create`: the result and the descriptors.
unfoldable pub sock_create : World → ℤ × List FdEvent
sock_create w =
    if is_negative w.socket_fd
    then (negsuc 0, [])
    else (if is_negative w.bind_result
        then (negsuc 1, opened w.socket_fd ∷ [])
        else (pos 0, opened w.socket_fd ∷ []))

-- What `svpn_init` returns, and the descriptors.
pub record Started : Type 0 where
  pub client : Option SvpnClient
  pub events : List FdEvent

-- The bytes of `struct CodeTable` after `memset`.
abbrev pub zero_table : CodeTable
zero_table = record { encode = replicate 256 0; decode = replicate 256 0 }

-- The conversion of a `long long` to the `unsigned char` that `BuildTable` takes.
abbrev pub u8_of : ℤ → ℕ
u8_of (pos n) = n % 256
u8_of (negsuc n) = 255 - n % 256

-- After `svpn_sock_create`: the tunnel.
unfoldable pub init_tun : World → List ℕ → CodeTable → List FdEvent → Started
unfolding tun_create
init_tun w server_addr table events =
    let t = tun_create w [] in
    if is_negative t.result
    then (record { client = none; events = events ++ (t.events ++ (closed w.socket_fd ∷ [])) })
    else (record {
      client = some (record {
        dev_name = t.dev_name;
        sock_fd = w.socket_fd;
        server_addr = server_addr;
        tun_fd = t.result;
        table = table;
      });
      events = events ++ t.events;
    })

-- The server's `struct sockaddr_in`, from the address's text by `inet_pton` and the port.
module _ (sockaddr : List ℕ → ℕ → List ℕ) where
  -- `svpn_init`
  unfoldable pub svpn_init : World → List ℕ → ℕ → List ℕ → ℤ → Started
  unfolding sock_create init_tun
  svpn_init w addr port md5 timestamp =
      let table = build_table zero_table md5 (u8_of timestamp) in
      let (result, events) = sock_create w in
      if is_negative result
      then (record { client = none; events = events })
      else init_tun w (sockaddr addr port) table events

  -- What `main` does: it ends with a status, it writes past `buffer`, or it runs commands and enters
  -- the loop.
  pub data Main : Type 0 where
    exits : ℤ → Main
    overflows : Main
    runs : List (List ℕ) → SvpnClient → Main

  unfoldable pub address_command : List ℕ → List ℕ
  address_command id = codes "ifconfig tun0 192.168.3." ++ (id ++ codes "/24")

  -- The three commands, as they are passed to `system`.
  unfoldable pub commands : List ℕ → List (List ℕ)
  unfolding address_command
  commands id = codes "ifconfig tun0 up" ∷ address_command id ∷ codes "ifconfig tun0 mtu 1400" ∷ []

  -- `atoi`, whose result is unspecified for a number out of range.
  abbrev pub atoi_of : Option ℤ → ℤ
  atoi_of none = pos 0
  atoi_of (some z) = z

  abbrev pub atoi : List ℕ → ℤ
  atoi s = atoi_of (scan_number s).value

  -- `main` after `svpn_init`.
  unfoldable pub main_started : List ℕ → Option SvpnClient → Main
  unfolding commands address_command
  main_started id none = exits (negsuc 0)
  main_started id (some psc) =
      if ltb (length (address_command id)) 1024 then runs (commands id) psc else overflows

  -- The arguments that `main` reads.
  pub record Arguments : Type 0 where
    pub argc : ℕ
    pub server_ip : List ℕ
    pub port : List ℕ
    pub id : List ℕ
    pub password : List ℕ

  -- `main`; `stack` is the memory of the digest's context.
  unfoldable pub main : Md5Ctx → Arguments → World → Main
  unfolding main_started svpn_init
  main stack args w =
      if ltb args.argc 5
      then exits (pos 0)
      else main_started args.id
          (svpn_init w args.server_ip (to_u16 (atoi args.port))
            (md5_fast stack (c_string args.password) (strlen args.password)) (atoi args.id)).client
