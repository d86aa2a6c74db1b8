-- ===== src/Client/StartLaws.antt =====
-- The client's start: its keys, and what it leaves open.
use s_vpn.Common.{
  ℕ, ◌+◌, ◌^◌, ◌≤◌, ◌<◌, ◌≡◌, refl, ◌∙◌, ap, ap₂, arith, List, [], ◌∷◌, length, take-length, u8,
  if◌then◌else◌, Bool-cases, inl, inr, ltb, true, false, Option, none, some,
}
use s_vpn.Common.Int.{ℤ, pos}
use s_vpn.Scan.{c_string, strlen}
use s_vpn.Scan.Laws.{strlen_le}
use s_vpn.Crypt.{CodeTable, build_table}
use s_vpn.Crypt.Table.{IsAllocated}
use s_vpn.Md5.{Md5Ctx, md5_fast}
use s_vpn.Md5.Reference.{md5_reference}
use s_vpn.Md5.Digest.{md5_fast-eq-reference, md5_reference-IsBytes}
use s_vpn.Fd.{opened, is_negative, left_open, eq_ℤ-refl}
use s_vpn.Server.Loop.{ClientNode, codes}
use s_vpn.Server.Users.{new_user, to_u16}
use s_vpn.Traffic.Uplink.{SharesPassword}
use s_vpn.Client.Loop.{SvpnClient}
use s_vpn.Client.Start.{
  World, tun_create, sock_create, zero_table, u8_of, init_tun, svpn_init, runs, atoi, commands,
  address_command, main_started, Arguments, main,
}

-- What is open once `svpn_init` is over.
abbrev pub expected_open : World → Option SvpnClient → List ℤ
expected_open w none =
    if is_negative w.socket_fd
    then []
    else (if is_negative w.bind_result then w.socket_fd ∷ [] else [])
expected_open w (some psc) = w.open_result ∷ w.socket_fd ∷ []

init_tun-left_open :
    (w : World) (server_addr : List ℕ) (table : CodeTable)
    → is_negative w.socket_fd ≡ false
    → is_negative w.bind_result ≡ false
    → left_open (init_tun w server_addr table (opened w.socket_fd ∷ [])).events
      ≡ expected_open w (init_tun w server_addr table (opened w.socket_fd ∷ [])).client
unfolding init_tun tun_create
init_tun-left_open w server_addr table socket bound =
    elim (Bool-cases (is_negative w.open_result)) [
      | inl bad ↦ rw (bad, bad, socket, bound, eq_ℤ-refl w.socket_fd)
      | inr good ↦ elim (Bool-cases (is_negative w.ioctl_result)) [
        | inl bad ↦
            rw (good, bad, bad, socket, bound, eq_ℤ-refl w.open_result, eq_ℤ-refl w.socket_fd)
        | inr made ↦ rw (good, made, good)
      ]
    ]

-- `socket`, `bind`, `open` and `ioctl` succeed.
pub record Succeeds (w : World) : Type 0 where
  pub socket : is_negative w.socket_fd ≡ false
  pub bound : is_negative w.bind_result ≡ false
  pub tunnel : is_negative w.open_result ≡ false
  pub made : is_negative w.ioctl_result ≡ false

-- The client that `svpn_init` returns then.
abbrev pub started : World → List ℕ → CodeTable → SvpnClient
started w server_addr table = record {
  dev_name = codes "/dev/net/tun";
  sock_fd = w.socket_fd;
  server_addr = server_addr;
  tun_fd = w.open_result;
  table = table;
}

module _ (sockaddr : List ℕ → ℕ → List ℕ) where
  -- Whatever the system calls return, after `svpn_init` the tunnel and the socket are open if it
  -- returns a client; if it returns NULL, nothing is, but for the socket where `bind` refused it.
  pub svpn_init-left_open :
      (w : World) (addr : List ℕ) (port : ℕ) (md5 : List ℕ) (timestamp : ℤ)
      → left_open (svpn_init sockaddr w addr port md5 timestamp).events
        ≡ expected_open w (svpn_init sockaddr w addr port md5 timestamp).client
  unfolding svpn_init sock_create
  svpn_init-left_open w addr port md5 timestamp = elim (Bool-cases (is_negative w.socket_fd)) [
    | inl bad ↦ rw (bad, bad)
    | inr socket ↦ elim (Bool-cases (is_negative w.bind_result)) [
      | inl refused ↦ rw (socket, refused, socket, refused)
      | inr bound ↦ rw (socket, bound) (init_tun-left_open w (sockaddr addr port) _ socket bound)
    ]
  ]

  svpn_init_success :
      (w : World) (addr : List ℕ) (port : ℕ) (md5 : List ℕ) (timestamp : ℤ)
      → Succeeds w
      → (svpn_init sockaddr w addr port md5 timestamp).client
        ≡ some (started w (sockaddr addr port) (build_table zero_table md5 (u8_of timestamp)))
  unfolding svpn_init sock_create init_tun tun_create
  svpn_init_success w addr port md5 timestamp ok =
      rw (ok.socket, ok.bound, ok.tunnel, ok.made, ok.tunnel)

  -- If the arguments are there, the system calls succeed and the command fits its buffer, `main`
  -- runs the three commands and enters the loop with the server's address and with tables that the
  -- server has for this password and this number below 256 too, built from RFC 1321's digest of the
  -- password up to its first zero byte (a password shorter than 2^32 - 64 bytes, digest buffers of 64
  -- bytes, memory with both arrays).
  pub main-SharesPassword :
      (stack stack' : Md5Ctx) (allocated : ℕ → ClientNode) (args : Arguments sockaddr) (w : World)
      (uid : ℕ)
      → length stack.buffer ≡ 64
      → length stack'.buffer ≡ 64
      → IsAllocated (allocated uid).table
      → 5 ≤ args.argc
      → atoi sockaddr args.id ≡ pos uid
      → uid < 256
      → length args.password + 64 < 2 ^ 32
      → length (address_command sockaddr args.id) < 1024
      → Succeeds w
      → (psc : SvpnClient) × (main sockaddr stack args w ≡ runs (commands sockaddr args.id) psc)
        × (psc.server_addr ≡ sockaddr args.server_ip (to_u16 (atoi sockaddr args.port)))
        × SharesPassword
            (md5_reference (c_string args.password))
            uid
            psc.table
            (new_user allocated stack' uid args.password).table
  unfolding main main_started new_user
  main-SharesPassword stack stack' allocated args w uid room room' memory enough number small short
        fits ok =
      (
        started w address (build_table zero_table md (u8_of (atoi sockaddr args.id))),
        rw (
          present,
          svpn_init_success w args.server_ip port md (atoi sockaddr args.id) ok,
          command,
        ),
        refl,
        record {
          digest_bytes = md5_reference-IsBytes (c_string args.password);
          user_number = small;
          memory = zero_table;
          memory' = (allocated uid).table;
          allocated = record { encode_size = refl; decode_size = refl };
          allocated' = memory;
          client_table = ap₂ (build_table zero_table) (digest stack room) client_number;
          server_table =
              ap₂ (build_table (allocated uid).table) (digest stack' room') server_number;
        },
      )
    where
      port : ℕ
      port = to_u16 (atoi sockaddr args.port)

      address : List ℕ
      address = sockaddr args.server_ip port

      md : List ℕ
      md = md5_fast stack (c_string args.password) (strlen args.password)

      present : ltb args.argc 5 ≡ false
      present = ground arith

      command : ltb (length (address_command sockaddr args.id)) 1024 ≡ true
      command = ground arith

      digest :
          (context : Md5Ctx)
          → length context.buffer ≡ 64
          → md5_fast context (c_string args.password) (strlen args.password)
            ≡ md5_reference (c_string args.password)
      digest context r =
          md5_fast-eq-reference context (c_string args.password) (strlen args.password) r
            (omega arith) (omega (arith, strlen_le args.password))
          ∙ ap md5_reference (take-length (c_string args.password))

      client_number : u8_of (atoi sockaddr args.id) ≡ uid
      client_number = rw number (omega arith)

      server_number : u8 uid ≡ uid
      server_number = omega arith
