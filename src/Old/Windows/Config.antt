-- ===== src/Old/Windows/Config.antt =====
-- `Config` of old-code/old/win32/Wtaet/config.cpp; a string is its characters. `inet_addr` and `atoi`
-- are the C library's, and `stack` is what `MD5Fast` finds on the stack.
use s_vpn.Common.{ℕ, ◌-◌, ◌%◌, List, [], ◌∷◌}
use s_vpn.Common.Int.{ℤ, pos, negsuc}
use s_vpn.Md5.{Md5Ctx, md5_fast}

-- The conversion to `unsigned short`.
abbrev pub to_u16 : ℤ → ℕ
to_u16 (pos n) = n % 65536
to_u16 (negsuc n) = 65535 - n % 65536

pub record ServerInfo : Type 0 where
  pub server_name : List ℕ
  pub server_port : ℕ

pub record UserInfo : Type 0 where
  pub user_name : List ℕ
  pub md5 : List ℕ

pub record Config : Type 0 where
  pub sinfo : ServerInfo
  pub uinfo : UserInfo
  pub tunaddr : ℕ

-- "36.54.3.49", "192.168.3.6" and "a"
abbrev pub debug_server : List ℕ
debug_server = 51 ∷ 54 ∷ 46 ∷ 53 ∷ 52 ∷ 46 ∷ 51 ∷ 46 ∷ 52 ∷ 57 ∷ []

abbrev pub debug_tunaddr : List ℕ
debug_tunaddr = 49 ∷ 57 ∷ 50 ∷ 46 ∷ 49 ∷ 54 ∷ 56 ∷ 46 ∷ 51 ∷ 46 ∷ 54 ∷ []

abbrev pub user_a : List ℕ
user_a = 97 ∷ []

module _ (inet_addr : List ℕ → ℕ) (stack : Md5Ctx) where
  abbrev pub user_info : UserInfo
  user_info = record { user_name = user_a; md5 = md5_fast stack user_a 1 }

  -- `UseDebugConfig`
  abbrev pub use_debug_config : Config → Config
  use_debug_config conf = record {
    sinfo = record { server_name = debug_server; server_port = 33333 };
    uinfo = user_info;
    tunaddr = inet_addr debug_tunaddr;
  }

  -- `UseCommandLineConfig`, with the three arguments that it reads.
  abbrev pub use_command_line_config : (List ℕ → ℤ) → Config → List ℕ → List ℕ → List ℕ → Config
  use_command_line_config atoi conf tun_arg name_arg port_arg = record {
    sinfo = record { server_name = name_arg; server_port = to_u16 (atoi port_arg) };
    uinfo = user_info;
    tunaddr = inet_addr tun_arg;
  }
