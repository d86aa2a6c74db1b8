-- ===== src/Server/Users.antt =====
-- The configuration file: `svpn_server_init_client` and the reading part of `svpn_server_init`
-- (src/server/svpn_server.c). The messages that they print are left out.
use s_vpn.Common.{
  ℕ, zero, suc, ◌+◌, ◌-◌, ◌%◌, List, length, get_or, set, replicate, u8, if◌then◌else◌, ltb, Bool,
  Option, none, some,
}
use s_vpn.Common.Int.{ℤ, pos, negsuc}
use s_vpn.Scan.{scan_word, scan_number, skip_line, c_string, strlen, eq_nocase}
use s_vpn.Crypt.{build_table}
use s_vpn.Md5.{Md5Ctx, md5_fast}
use s_vpn.Server.Loop.{ClientNode, codes}

-- `fault` is undefined behaviour: a write past `tmpstr`, an index outside `clients`, or a number that
-- does not fit an `int`.
pub data Parsed (A : Type 0) : Type 0 where
  done : A → Parsed A
  fault out_of_fuel : Parsed A

infixl 5 ◌>>=◌
abbrev pub ◌>>=◌ : {A B : Type 0} → Parsed A → (A → Parsed B) → Parsed B
done a >>= f = f a
fault >>= f = fault
out_of_fuel >>= f = out_of_fuel

-- `char tmpstr[128]` holds a word and its final zero.
abbrev pub fits_tmpstr : List ℕ → Bool
fits_tmpstr w = ltb (length w) 128

abbrev pub to_u16 : ℤ → ℕ
to_u16 (pos n) = n % 65536
to_u16 (negsuc n) = 65535 - n % 65536

abbrev pub Users : Type 0
Users = List (Option ClientNode)

-- `clients[id]` for the memory that `malloc` gives for it, and the stack below `MD5Fast`.
module _ (allocated : ℕ → ClientNode) (stack : Md5Ctx) where
  unfoldable pub new_user : ℕ → List ℕ → ClientNode
  new_user id password = record (allocated id) {
    table =
        build_table (allocated id).table (md5_fast stack (c_string password) (strlen password))
          (u8 id);
  }

  -- After the password, if there is one.
  unfoldable pub store_password : Users → ℕ → List ℕ → Option (List ℕ) → Parsed (Users × List ℕ)
  store_password users id input none = done (users, input)
  store_password users id input (some password) =
      if fits_tmpstr password
      then done (set users id (some (new_user id password)), input)
      else fault

  -- After the number: the password is read unless there is such a user already.
  unfoldable pub read_password : Users → ℕ → List ℕ → Option ClientNode → Parsed (Users × List ℕ)
  unfolding store_password
  read_password users id input (some node) = done (users, input)
  read_password users id input none =
      store_password users id (scan_word input).rest (scan_word input).value

  unfoldable pub read_id : Users → List ℕ → Option ℤ → Parsed (Users × List ℕ)
  unfolding read_password
  read_id users input none = done (users, input)
  read_id users input (some (negsuc n)) = fault
  read_id users input (some (pos id)) =
      if ltb id 256 then read_password users id input (get_or users id none) else fault

  -- A line after its first word `user`.
  unfoldable pub read_user : Users → List ℕ → Parsed (Users × List ℕ)
  unfolding read_id
  read_user users input = read_id users (scan_number input).rest (scan_number input).value

  unfoldable pub read_line : Users → List ℕ → List ℕ → Parsed (Users × List ℕ)
  unfolding read_user
  read_line users word input =
      if fits_tmpstr word
      then (if eq_nocase word (codes "user") then read_user users input else done (users, input))
      else fault

  -- `while (1)` up to the end of the file.
  unfoldable pub users_loop : ℕ → List ℕ → Users → Parsed Users
  users_loop zero input users = out_of_fuel
  users_loop (suc fuel) input users = elim (scan_word input).value [
    | none ↦ done users
    | some word ↦ read_line users word (scan_word input).rest >>= λ line.
        users_loop fuel (skip_line 127 line.1) line.0
  ]

  -- `svpn_server_init_client` on the bytes of the file, if it opens: `none` is the result -1.
  unfoldable pub init_client : Option (List ℕ) → Parsed (Option Users)
  init_client none = done none
  init_client (some file) =
      users_loop (length file + 1) file (replicate 256 none) >>= λ users. done (some users)

-- The variables `port` and `laddr` of `svpn_server_init`.
pub record Settings : Type 0 where
  pub port : ℕ
  pub laddr : ℕ

module _ (inet_addr : List ℕ → ℕ) where
  -- `local`: if no word follows, `tmpstr` still holds the first.
  unfoldable pub read_local :
      Settings → List ℕ → List ℕ → Option (List ℕ) → Parsed (Settings × List ℕ)
  read_local s word input none = done (record s { laddr = inet_addr (c_string word) }, input)
  read_local s word input (some address) =
      if fits_tmpstr address
      then done (record s { laddr = inet_addr (c_string address) }, input)
      else fault

  unfoldable pub read_port : Settings → List ℕ → Option ℤ → Settings × List ℕ
  read_port s input none = (s, input)
  read_port s input (some z) = (record s { port = to_u16 z }, input)

  unfoldable pub read_setting : Settings → List ℕ → List ℕ → Parsed (Settings × List ℕ)
  unfolding read_local read_port
  read_setting s word input =
      if fits_tmpstr word
      then (if eq_nocase word (codes "port")
          then done (read_port s (scan_number input).rest (scan_number input).value)
          else (if eq_nocase word (codes "local")
              then read_local s word (scan_word input).rest (scan_word input).value
              else done (s, input)))
      else fault

  unfoldable pub settings_loop : ℕ → List ℕ → Settings → Parsed Settings
  settings_loop zero input s = out_of_fuel
  settings_loop (suc fuel) input s = elim (scan_word input).value [
    | none ↦ done s
    | some word ↦ read_setting s word (scan_word input).rest >>= λ line.
        settings_loop fuel (skip_line 127 line.1) line.0
  ]

  -- The lines of `svpn_server_init` up to `fclose`.
  unfoldable pub read_settings : List ℕ → Parsed Settings
  read_settings file = settings_loop (length file + 1) file (record { port = 0; laddr = 0 })
