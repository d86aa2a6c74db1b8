-- ===== src/Tests/StartRuns.antt =====
-- The start of the server and of the client.
use s_vpn.Common.{ℕ, ◌/◌, ◌%◌, ◌≡◌, refl, arith, List, [], ◌∷◌, ◌++◌, set, replicate, none, some}
use s_vpn.Common.Int.{pos}
use s_vpn.Md5.{Md5Ctx}
use s_vpn.Md5.Reference.{md5_reference}
use s_vpn.Fd.{left_open}
use s_vpn.Scan.{c_string, decimal, scan_number}
use s_vpn.Server.Loop.{ClientNode, codes}
use s_vpn.Server.MainServes.{served, main-Serves}
use s_vpn.Server.Users.{done, read_settings, Settings, Users, new_user, users_loop, init_client}
use s_vpn.Server.UsersLaws.{Returns, Extends, users_loop-Extends}
use s_vpn.Server.UserTables.{AllUsers, init_client-AllUsers}
use s_vpn.Server.UserLines.{user_line, users_loop-adds}
use s_vpn.Server.Start as Server
use s_vpn.Server.StartLaws as ServerLaws
use s_vpn.Traffic.Uplink.{SharesPassword}
use s_vpn.Client.Loop.{SvpnClient}
use s_vpn.Client.Start as Client
use s_vpn.Client.StartLaws as ClientLaws
use s_vpn.Tests.CryptRuns.{memory, memory-IsAllocated}

abbrev stack : Md5Ctx
stack = record { count0 = 7; count1 = 9; state = []; buffer = replicate 64 170 }

abbrev allocated : ℕ → ClientNode
allocated id = record { addr = []; table = memory }

-- user 7 a
abbrev line : List ℕ
line = 117 ∷ 115 ∷ 101 ∷ 114 ∷ 32 ∷ 55 ∷ 32 ∷ 97 ∷ 10 ∷ []

abbrev no_users : Users
no_users = replicate 256 none

users_loop-Extends_example :
    Returns (Extends allocated stack no_users) (users_loop allocated stack 10 line no_users)
users_loop-Extends_example = users_loop-Extends allocated stack 10 line no_users (omega arith)

init_client-AllUsers_example :
    Returns (AllUsers allocated) (init_client allocated stack (some line))
init_client-AllUsers_example =
    init_client-AllUsers allocated stack (λ id. memory-IsAllocated) refl (some line)

users_loop-adds_example :
    users_loop allocated stack 10 (user_line 55 [] 97 [] []) no_users
    ≡ users_loop allocated stack 9 [] (set no_users 7 (some (new_user allocated stack 7 (97 ∷ []))))
unfolding decimal
users_loop-adds_example =
    users_loop-adds allocated stack 9 no_users 55 [] 97 [] [] 7 (refl, tt) refl (omega arith)
      (refl, tt) (omega arith) refl

abbrev tun_calls : Server.TunCalls
tun_calls = record {
  open_result = pos 5;
  ioctl_result = pos 0;
  ifr_name = codes "tun0";
  ctl_fd = pos 6;
  up = pos 0;
  mtu = pos 256;
  address = pos 0;
}

abbrev world : Server.World
world = record { file = some line; socket_fd = pos 4; bind_result = pos 0; tun = tun_calls }

abbrev settings : Settings
settings = record { port = 123; laddr = 16951488 }

start_socket-left_open_example :
    left_open (Server.start_socket world (codes "192.168.2.1") settings).events
    ≡ ServerLaws.expected_open world
        (Server.start_socket world (codes "192.168.2.1") settings).server
start_socket-left_open_example =
    ServerLaws.start_socket-left_open world (codes "192.168.2.1") settings
      (record { up_runs = refl; mtu_runs = refl; address_runs = refl })

-- port 9, local a, and user 7 with the password a
abbrev whole_file : List ℕ
whole_file = codes "port 9" ++ (10 ∷ codes "local a") ++ (10 ∷ line)

abbrev whole_settings : Settings
whole_settings = record { port = 9; laddr = 16951488 }

whole_file-settings : read_settings (λ word. 16951488) whole_file ≡ done whole_settings
unfolding read_settings s_vpn.Server.Users.settings_loop s_vpn.Server.Users.read_setting
    s_vpn.Server.Users.read_local s_vpn.Server.Users.read_port s_vpn.Scan.scan_word
    s_vpn.Scan.skip_line s_vpn.Scan.skip_spaces s_vpn.Scan.word_of s_vpn.Scan.after_word scan_number
    s_vpn.Scan.digits_of s_vpn.Scan.after_digits decimal s_vpn.Scan.eq_nocase s_vpn.Scan.eq_letters
whole_file-settings = refl

abbrev one_user : Users
one_user = set no_users 7 (some (new_user allocated stack 7 (97 ∷ [])))

whole_file-users : init_client allocated stack (some whole_file) ≡ done (some one_user)
unfolding init_client users_loop s_vpn.Server.Users.read_line s_vpn.Server.Users.read_user
    s_vpn.Server.Users.read_id s_vpn.Server.Users.read_password s_vpn.Server.Users.store_password
    s_vpn.Scan.scan_word s_vpn.Scan.skip_line s_vpn.Scan.skip_spaces s_vpn.Scan.word_of
    s_vpn.Scan.after_word scan_number s_vpn.Scan.digits_of s_vpn.Scan.after_digits decimal
    s_vpn.Scan.eq_nocase s_vpn.Scan.eq_letters
whole_file-users = refl

abbrev whole_world : Server.World
whole_world = record world { file = some whole_file; tun = record tun_calls { mtu = pos 0 } }

main-Serves_example :
    (Server.main (λ word. 16951488) (λ address. []) allocated stack 2 whole_world
      ≡ done (Server.serves (served whole_world whole_settings one_user)))
    × AllUsers allocated (some one_user)
main-Serves_example =
    main-Serves (λ word. 16951488) (λ address. []) allocated stack (λ id. memory-IsAllocated) refl
      whole_world whole_file whole_settings one_user refl whole_file-settings refl
      (record {
        socket = refl;
        bound = refl;
        tunnel = refl;
        made = refl;
        up = refl;
        mtu = refl;
        address = refl;
      })
      whole_file-users

abbrev sockaddr : List ℕ → ℕ → List ℕ
sockaddr address port = 2 ∷ 0 ∷ port / 256 ∷ port % 256 ∷ address

abbrev client_world : Client.World
client_world = record {
  socket_fd = pos 3;
  bind_result = pos 0;
  open_result = pos 4;
  ioctl_result = pos 0;
}

svpn_init-left_open_example :
    left_open
      (Client.svpn_init sockaddr client_world
        (codes "10.0.0.1")
        123
        (replicate 16 1)
        (pos 7)).events
    ≡ ClientLaws.expected_open client_world
        (Client.svpn_init sockaddr client_world
          (codes "10.0.0.1")
          123
          (replicate 16 1)
          (pos 7)).client
svpn_init-left_open_example =
    ClientLaws.svpn_init-left_open sockaddr client_world (codes "10.0.0.1") 123 (replicate 16 1)
      (pos 7)

abbrev arguments : Client.Arguments sockaddr
arguments = record {
  argc = 5;
  server_ip = 49 ∷ [];
  port = 49 ∷ 50 ∷ [];
  id = 55 ∷ [];
  password = 97 ∷ [];
}

main-SharesPassword_example :
    (psc : SvpnClient) × (Client.main sockaddr stack arguments client_world
      ≡ Client.runs (Client.commands sockaddr arguments.id) psc)
    × (psc.server_addr ≡ sockaddr arguments.server_ip 12)
    × SharesPassword
        (md5_reference (c_string arguments.password))
        7
        psc.table
        (new_user allocated stack 7 arguments.password).table
unfolding scan_number decimal Client.address_command s_vpn.Scan.skip_spaces s_vpn.Scan.digits_of
main-SharesPassword_example =
    ClientLaws.main-SharesPassword sockaddr stack stack allocated arguments client_world 7 refl refl
      memory-IsAllocated (omega arith) refl (omega arith) (omega arith) (omega arith)
      (record { socket = refl; bound = refl; tunnel = refl; made = refl })
