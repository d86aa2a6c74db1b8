-- ===== src/Server/StartLaws.antt =====
-- The server's start closes what it opened if it fails, and ends with good users.
use s_vpn.Common.{
  ℕ, suc, ◌≡◌, ◌⊎◌, refl, arith, List, [], ◌∷◌, replicate, Bool-cases, inl, inr, true, false,
  Option, none, some,
}
use s_vpn.Common.Int.{ℤ, pos, negsuc, is_zero}
use s_vpn.Md5.Reference.{le_bytes}
use s_vpn.Fd.{FdEvent, opened, closed, is_negative, left_open, eq_ℤ-refl}
use s_vpn.Server.Loop.{SvpnServer}
use s_vpn.Server.Users.{Settings}
use s_vpn.Server.Start.{
  TunCalls, set_tuntxqlen, configure, tun_create, sock_create, World, start_tun, start_socket,
}

-- What is open once the start is over.
abbrev pub expected_open : World → Option SvpnServer → List ℤ
expected_open w none = []
expected_open w (some psc) = w.tun.open_result ∷ w.socket_fd ∷ []

-- The shell could be started for each command.
pub record SystemRuns (t : TunCalls) : Type 0 where
  pub up_runs : is_negative t.up ≡ false
  pub mtu_runs : is_negative t.mtu ≡ false
  pub address_runs : is_negative t.address ≡ false

queue_events :
    (ctl tun sock : ℤ) → left_open (opened sock ∷ opened tun ∷ set_tuntxqlen ctl) ≡ tun ∷ sock ∷ []
unfolding set_tuntxqlen
queue_events (pos n) tun sock = rw (eq_ℤ-refl (pos n))
queue_events (negsuc n) tun sock = refl

configure_result :
    (t : TunCalls) (fd : ℤ) (events : List FdEvent) (name : List ℕ)
    → is_negative fd ≡ false
    → SystemRuns t
    → (is_negative (configure t fd events name).result ≡ false)
      × ((configure t fd events name).events ≡ events)
unfolding configure
configure_result t fd events name h runs = (ground arith, ground arith)

-- How `svpn_tun_create` ends, if each command could be started.
tun_create-cases :
    (t : TunCalls) (dev name : List ℕ)
    → SystemRuns t
    → ((is_negative (tun_create t dev name).result ≡ true)
        × (((tun_create t dev name).events ≡ [])
            ⊎ ((tun_create t dev name).events ≡ opened t.open_result ∷ closed t.open_result ∷ [])))
      ⊎ ((is_negative (tun_create t dev name).result ≡ false)
          × ((tun_create t dev name).events ≡ opened t.open_result ∷ set_tuntxqlen t.ctl_fd))
unfolding tun_create
tun_create-cases t dev name runs = elim (Bool-cases (is_negative t.open_result)) [
  | inl bad ↦ inl (rw (bad) bad, inl (rw bad))
  | inr good ↦ elim (Bool-cases (is_negative t.ioctl_result)) [
    | inl bad ↦ inl (rw (good, bad) bad, inr (rw (good, bad)))
    | inr made ↦
        let (result, events) =
          configure_result t t.open_result (opened t.open_result ∷ set_tuntxqlen t.ctl_fd) name good
            runs in
        inr (rw (good, made) result, rw (good, made) events)
  ]
]

start_tun-left_open :
    (w : World) (name : List ℕ) (s : Settings)
    → SystemRuns w.tun
    → left_open (start_tun w name s (opened w.socket_fd ∷ [])).events
      ≡ expected_open w (start_tun w name s (opened w.socket_fd ∷ [])).server
unfolding start_tun
start_tun-left_open w name s runs = elim (tun_create-cases w.tun (replicate 128 0) name runs) [
  | inl (failed, inl events) ↦ rw (failed, events, eq_ℤ-refl w.socket_fd)
  | inl (failed, inr events) ↦
      rw (failed, events, eq_ℤ-refl w.tun.open_result, eq_ℤ-refl w.socket_fd)
  | inr (made, events) ↦ rw (made, events) (queue_events w.tun.ctl_fd w.tun.open_result w.socket_fd)
]

-- If each `system` can start its command, then after `svpn_sock_create` and `svpn_tun_create` no
-- descriptor is left open where `svpn_server_init` returns NULL, and just those of the tunnel and
-- the socket where it returns a server.
pub start_socket-left_open :
    (w : World) (name : List ℕ) (s : Settings)
    → SystemRuns w.tun
    → left_open (start_socket w name s).events ≡ expected_open w (start_socket w name s).server
unfolding start_socket sock_create
start_socket-left_open w name s runs = elim (Bool-cases (is_negative w.socket_fd)) [
  | inl bad ↦ rw bad
  | inr good ↦ elim (Bool-cases (is_negative w.bind_result)) [
    | inl refused ↦ rw (good, refused, eq_ℤ-refl w.socket_fd)
    | inr bound ↦ rw (good, bound) (start_tun-left_open w name s runs)
  ]
]

-- If the device was made but `ifconfig` ends with a status other than 0, `svpn_server_init`
-- returns a server all the same, which takes the status for the tunnel's descriptor.
start_socket-takes_status :
    (w : World) (name : List ℕ) (s : Settings) (n : ℕ)
    → is_negative w.socket_fd ≡ false
    → is_negative w.bind_result ≡ false
    → is_negative w.tun.open_result ≡ false
    → is_negative w.tun.ioctl_result ≡ false
    → w.tun.up ≡ pos (suc n)
    → (psc : SvpnServer) × ((start_socket w name s).server ≡ some psc) × (psc.tun_fd ≡ pos (suc n))
unfolding start_socket sock_create start_tun tun_create configure
start_socket-takes_status w name s n a b c d e = (
  record {
    dev_name = w.tun.ifr_name;
    local_addr = le_bytes 4 s.laddr;
    sock_fd = w.socket_fd;
    server_port = s.port;
    tun_fd = pos (suc n);
    clients = replicate 256 none;
  },
  rw (a, b, c, d, e, nz),
  refl,
)
  where
    nz : is_zero (pos (suc n)) ≡ false
    nz = ground arith
