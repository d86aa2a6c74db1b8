-- ===== src/Server/MainServes.antt =====
-- The server's `main` where everything succeeds.
use s_vpn.Common.{ℕ, ◌≡◌, refl, List, length, replicate, ◌==◌, ◌||◌, false, true, none, some}
use s_vpn.Common.Int.{is_zero}
use s_vpn.Crypt.Table.{IsAllocated}
use s_vpn.Md5.{Md5Ctx}
use s_vpn.Md5.Reference.{le_bytes}
use s_vpn.Fd.{is_negative}
use s_vpn.Server.Loop.{ClientNode, SvpnServer}
use s_vpn.Server.Users.{done, Settings, Users, read_settings, init_client}
use s_vpn.Server.UsersLaws.{Returns}
use s_vpn.Server.UserTables.{AllUsers, init_client-AllUsers}
use s_vpn.Server.Start.{
  tun_create, configure, sock_create, World, start_tun, start_socket, server_init, serves,
  main_users, entered, main,
}
use mathlib.Core.Path.{subst}

-- Each call of the start succeeds: `socket`, `bind`, `open` and `ioctl`, and the commands give 0.
pub record Succeeds (w : World) : Type 0 where
  pub socket : is_negative w.socket_fd ≡ false
  pub bound : is_negative w.bind_result ≡ false
  pub tunnel : is_negative w.tun.open_result ≡ false
  pub made : is_negative w.tun.ioctl_result ≡ false
  pub up : is_zero w.tun.up ≡ true
  pub mtu : is_zero w.tun.mtu ≡ true
  pub address : is_zero w.tun.address ≡ true

-- The server that enters the loop then.
abbrev pub served : World → Settings → Users → SvpnServer
served w s users = record {
  dev_name = w.tun.ifr_name;
  local_addr = le_bytes 4 s.laddr;
  sock_fd = w.socket_fd;
  server_port = s.port;
  tun_fd = w.tun.open_result;
  clients = users;
}

start_socket-served :
    (w : World) (name : List ℕ) (s : Settings)
    → Succeeds w
    → (start_socket w name s).server ≡ some (served w s (replicate 256 none))
unfolding start_socket sock_create start_tun tun_create configure
start_socket-served w name s ok =
    rw (ok.socket, ok.bound, ok.tunnel, ok.made, ok.up, ok.mtu, ok.address, ok.tunnel) refl

module _ (inet_addr : List ℕ → ℕ) (inet_ntoa : ℕ → List ℕ) (allocated : ℕ → ClientNode)
    (stack : Md5Ctx) where
  -- With one argument, a file from which `svpn_server_init` reads a port and a local address that are
  -- not 0, and from which `svpn_server_init_client` reads users, and calls that succeed (memory with
  -- the two arrays of each table, a digest buffer of 64 bytes), `main` enters the loop with a server
  -- that has the device's name, the four bytes of the local address, the port, the descriptors of
  -- the socket and the tunnel, and these users, who have the tables of a password's digest and of
  -- their numbers, inverse to one another.
  pub main-Serves :
      (memory : (id : ℕ) → IsAllocated (allocated id).table) (room : length stack.buffer ≡ 64)
      (w : World) (file : List ℕ) (s : Settings) (users : Users)
      → w.file ≡ some file
      → read_settings inet_addr file ≡ done s
      → (s.port == 0 || s.laddr == 0) ≡ false
      → Succeeds w
      → init_client allocated stack (some file) ≡ done (some users)
      → (main inet_addr inet_ntoa allocated stack 2 w ≡ done (serves (served w s users)))
        × AllUsers allocated (some users)
  unfolding main main_users entered server_init
  main-Serves memory room w file s users has settings given ok has_users = (
    rw (has, settings, given, start_socket-served w (inet_ntoa s.laddr) s ok, has_users) refl,
    subst (Returns (AllUsers allocated)) has_users
        (init_client-AllUsers allocated stack memory room (some file)),
  )
