-- ===== src/Old/Client/StartLaws.antt =====
-- The older clients' start: what is open, and the tables.
use s_vpn.Common.{
  ℕ, ◌≡◌, ◌⊎◌, refl, List, [], ◌∷◌, length, replicate, if◌then◌else◌, Bool-cases, inl, inr, true,
  false, Option, none, some,
}
use s_vpn.Common.Int.{ℤ}
use s_vpn.Crypt.{CodeTable}
use s_vpn.Crypt.Table.{IsCodeTable}
use s_vpn.Md5.{Md5Ctx}
use s_vpn.Fd.{FdEvent, opened, closed, is_negative, left_open, eq_ℤ-refl}
use s_vpn.Old.TableLaws.{HasSpace, build_timed_table-IsCodeTable}
use s_vpn.Old.Client.{SvpnClient}
use s_vpn.Old.Client.Start.{
  Tun, linux_tun_create, is_minus_one, osx_tun_create, sock_create, init_tun, svpn_init,
}

-- A tunnel that failed left nothing open, and one that was made its descriptor.
abbrev pub Balances : Tun → Type 0
Balances t =
    ((is_negative t.result ≡ true)
      × ((t.events ≡ []) ⊎ ((fd : ℤ) × (t.events ≡ opened fd ∷ closed fd ∷ []))))
    ⊎ ((is_negative t.result ≡ false) × (t.events ≡ opened t.result ∷ []))

pub linux_tun_create-Balances : (fd err : ℤ) → Balances (linux_tun_create fd err)
unfolding linux_tun_create
linux_tun_create-Balances fd err = elim (Bool-cases (is_negative fd)) [
  | inl bad ↦ rw bad (inl (bad, inl refl))
  | inr good ↦ elim (Bool-cases (is_negative err)) [
    | inl bad ↦ rw (good, bad) (inl (bad, inr (fd, refl)))
    | inr made ↦ rw (good, made) (inr (good, refl))
  ]
]

pub osx_tun_create-Balances : (s info connected : ℤ) → Balances (osx_tun_create s info connected)
unfolding osx_tun_create
osx_tun_create-Balances s info connected = elim (Bool-cases (is_negative s)) [
  | inl bad ↦ rw bad (inl (refl, inl refl))
  | inr good ↦ elim (Bool-cases (is_minus_one info)) [
    | inl bad ↦ rw (good, bad) (inl (refl, inr (s, refl)))
    | inr known ↦ elim (Bool-cases (is_minus_one connected)) [
      | inl bad ↦ rw (good, known, bad) (inl (refl, inr (s, refl)))
      | inr made ↦ rw (good, known, made) (inr (good, refl))
    ]
  ]
]

-- What is open once `svpn_init` is over.
abbrev pub expected_open : ℤ → ℤ → Tun → Option SvpnClient → List ℤ
expected_open socket_fd bind_result t none =
    if is_negative socket_fd then [] else (if is_negative bind_result then socket_fd ∷ [] else [])
expected_open socket_fd bind_result t (some psc) = t.result ∷ socket_fd ∷ []

init_tun-left_open :
    (socket_fd bind_result : ℤ) (t : Tun) (server_addr : List ℕ) (table : CodeTable)
    → Balances t
    → is_negative socket_fd ≡ false
    → is_negative bind_result ≡ false
    → left_open (init_tun socket_fd t server_addr table (opened socket_fd ∷ [])).events
      ≡ expected_open socket_fd bind_result t
          (init_tun socket_fd t server_addr table (opened socket_fd ∷ [])).client
unfolding init_tun
init_tun-left_open socket_fd bind_result t server_addr table balance socket bound = elim balance [
  | inl (failed, inl events) ↦ rw (failed, events, socket, bound, eq_ℤ-refl socket_fd)
  | inl (failed, inr (fd, events)) ↦
      rw (failed, events, socket, bound, eq_ℤ-refl fd, eq_ℤ-refl socket_fd)
  | inr (made, events) ↦ rw (made, events)
]

module _ (sockaddr : List ℕ → ℕ → List ℕ) (stack : Md5Ctx) (md : List ℕ) where
  balanced-left_open :
      (socket_fd bind_result : ℤ) (t : Tun) (addr : List ℕ) (port : ℕ) (md5 : List ℕ)
      (timestamp : ℕ)
      → Balances t
      → let started = svpn_init sockaddr stack md socket_fd bind_result t addr port md5 timestamp in
        left_open started.events ≡ expected_open socket_fd bind_result t started.client
  unfolding svpn_init sock_create
  balanced-left_open socket_fd bind_result t addr port md5 timestamp balance =
      elim (Bool-cases (is_negative socket_fd)) [
        | inl bad ↦ rw (bad, bad)
        | inr socket ↦ elim (Bool-cases (is_negative bind_result)) [
          | inl refused ↦ rw (socket, refused, socket, refused)
          | inr bound ↦
              rw (socket, bound)
                (init_tun-left_open socket_fd bind_result t (sockaddr addr port) _ balance socket
                  bound)
        ]
      ]

  -- Whatever the system calls of the Linux client or of the OS X client return, after `svpn_init`
  -- the tunnel and the socket are open if it returns a client; if it returns NULL, nothing is, but
  -- for the socket where `bind` refused it.
  pub svpn_init-opens :
      (socket_fd bind_result fd err info connected : ℤ) (addr : List ℕ) (port : ℕ) (md5 : List ℕ)
      (timestamp : ℕ)
      → let linux = linux_tun_create fd err in
        let osx = osx_tun_create fd info connected in
        let on_linux =
          svpn_init sockaddr stack md socket_fd bind_result linux addr port md5 timestamp in
        let on_osx =
          svpn_init sockaddr stack md socket_fd bind_result osx addr port md5 timestamp in
        (left_open on_linux.events ≡ expected_open socket_fd bind_result linux on_linux.client)
        × (left_open on_osx.events ≡ expected_open socket_fd bind_result osx on_osx.client)
  svpn_init-opens socket_fd bind_result fd err info connected addr port md5 timestamp = (
    balanced-left_open socket_fd bind_result (linux_tun_create fd err) addr port md5 timestamp
        (linux_tun_create-Balances fd err),
    balanced-left_open socket_fd bind_result (osx_tun_create fd info connected) addr port md5
        timestamp (osx_tun_create-Balances fd info connected),
  )

-- A client that is ready for its threads: inverse tables, two descriptors, and no thread.
pub record IsReady (psc : SvpnClient) : Type 0 where
  pub inverse : IsCodeTable psc.table
  pub socket : is_negative psc.sock_fd ≡ false
  pub tunnel : is_negative psc.tun_fd ≡ false
  pub no_recv : psc.recv_thread_on ≡ false
  pub no_send : psc.send_thread_on ≡ false

abbrev pub IsReadyIf : Option SvpnClient → Type 0
IsReadyIf none = Unit
IsReadyIf (some psc) = IsReady psc

init_tun-IsReadyIf :
    (socket_fd : ℤ) (t : Tun) (server_addr : List ℕ) (table : CodeTable) (events : List FdEvent)
    → is_negative socket_fd ≡ false
    → IsCodeTable table
    → IsReadyIf (init_tun socket_fd t server_addr table events).client
unfolding init_tun
init_tun-IsReadyIf socket_fd t server_addr table events socket good =
    elim (Bool-cases (is_negative t.result)) [
      | inl failed ↦ rw failed tt
      | inr made ↦ rw made (record {
        inverse = good;
        socket = socket;
        tunnel = made;
        no_recv = refl;
        no_send = refl;
      })
    ]

abbrev pub zero_table : CodeTable
zero_table = record { encode = replicate 256 0; decode = replicate 256 0 }

-- Whatever the system calls return, a client that `svpn_init` returns has inverse tables, a socket
-- and a tunnel whose descriptors are not negative, and no thread of its own (a digest of 16 bytes,
-- a stack with its arrays).
pub svpn_init-IsReadyIf :
    (sockaddr : List ℕ → ℕ → List ℕ) (stack : Md5Ctx) (md : List ℕ) (socket_fd bind_result : ℤ)
    (t : Tun) (addr : List ℕ) (port : ℕ) (md5 : List ℕ) (timestamp : ℕ)
    → HasSpace stack md zero_table
    → length md5 ≡ 16
    → IsReadyIf (svpn_init sockaddr stack md socket_fd bind_result t addr port md5 timestamp).client
unfolding svpn_init sock_create
svpn_init-IsReadyIf sockaddr stack md socket_fd bind_result t addr port md5 timestamp space l =
    elim (Bool-cases (is_negative socket_fd)) [
      | inl bad ↦ rw bad tt
      | inr socket ↦ elim (Bool-cases (is_negative bind_result)) [
        | inl refused ↦ rw (socket, refused) tt
        | inr bound ↦
            rw (socket, bound)
              (init_tun-IsReadyIf socket_fd t (sockaddr addr port) _ (opened socket_fd ∷ []) socket
                (build_timed_table-IsCodeTable stack md zero_table md5 timestamp space l))
      ]
    ]
