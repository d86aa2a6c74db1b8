-- ===== src/Old/Client/Main.antt =====
-- `main` of old-code/old/linux/main.c and old-code/old/osx/main.c. The address of the server, the
-- password and the commands stand in the text.
use s_vpn.Common.{ℕ, List, [], ◌∷◌, Option, none, some}
use s_vpn.Common.Int.{ℤ, negsuc}
use s_vpn.Md5.{Md5Ctx, md5_fast}
use s_vpn.Server.Loop.{codes}
use s_vpn.Old.Client.{SvpnClient}
use s_vpn.Old.Client.Start.{Tun, linux_tun_create, osx_tun_create, svpn_init}

-- It ends with a status, or it runs commands, starts the thread and waits for it.
pub data Main : Type 0 where
  exits : ℤ → Main
  runs : List (List ℕ) → SvpnClient → Main

abbrev pub linux_commands : List (List ℕ)
linux_commands =
    codes "ifconfig tun0 up"
    ∷ codes "ifconfig tun0 192.168.3.3/24 "
    ∷ codes "ifconfig tun0 mtu 1440"
    ∷ []

abbrev pub osx_commands : List (List ℕ)
osx_commands =
    codes "ifconfig utun0 up"
    ∷ codes "ifconfig utun0 192.168.3.3 192.168.3.1"
    ∷ codes "ifconfig utun0 mtu 1400"
    ∷ []

unfoldable pub main_started : List (List ℕ) → Option SvpnClient → Main
main_started commands none = exits (negsuc 0)
main_started commands (some psc) = runs commands psc

module _ (sockaddr : List ℕ → ℕ → List ℕ) (stack : Md5Ctx) (md : List ℕ) where
  -- What both platforms share, with the tunnel and the commands of the platform.
  unfoldable pub main_with : ℤ → ℤ → Tun → List (List ℕ) → Main
  unfolding main_started
  main_with socket_fd bind_result t commands =
      let md5pd = md5_fast stack (codes "a") 1 in
      main_started commands
        (svpn_init sockaddr stack md socket_fd bind_result t (codes "36.54.3.49") 33333 md5pd
          0).client

  unfoldable pub linux_main : (socket_fd bind_result fd err : ℤ) → Main
  unfolding main_with
  linux_main socket_fd bind_result fd err =
      main_with socket_fd bind_result (linux_tun_create fd err) linux_commands

  unfoldable pub osx_main : (socket_fd bind_result s info connected : ℤ) → Main
  unfolding main_with
  osx_main socket_fd bind_result s info connected =
      main_with socket_fd bind_result (osx_tun_create s info connected) osx_commands
