-- ===== src/Server/UserTables.antt =====
-- The users of a configuration have good tables.
use s_vpn.Common.{
  ℕ, ◌+◌, ◌<◌, ◌≡◌, ◌⊎◌, sym, ◌∙◌, ap, ap₂, arith, List, length, byte_at, replicate,
  length-replicate, get_or-replicate, take-length, u8, inl, inr, Option, none, some,
}
use mathlib.Core.Option.{none-ne-some}
use s_vpn.Scan.{c_string, strlen}
use s_vpn.Scan.Laws.{strlen_le}
use s_vpn.Crypt.{build_table, ip_magic_header}
use s_vpn.Crypt.Table.{IsCodeTable, IsAllocated, build_table-IsCodeTable}
use s_vpn.Md5.{Md5Ctx, md5_fast}
use s_vpn.Md5.Reference.{md5_reference}
use s_vpn.Md5.Digest.{md5_fast-eq-reference, md5_reference-IsBytes}
use s_vpn.Server.Loop.{ClientNode}
use s_vpn.Server.Users.{Parsed, done, fault, out_of_fuel, ◌>>=◌, Users, new_user, init_client}
use s_vpn.Server.UsersLaws.{Returns, slot, Extends, users_loop-Extends}

-- A user's entry: its table belongs to a password of the file and to the user's number.
pub record HasPassword (allocated : ℕ → ClientNode) (uid : ℕ) (node : ClientNode) : Type 0 where
  pub password : List ℕ
  pub number : uid < 256
  pub from_password : node.table ≡ build_table (allocated uid).table (md5_reference password) uid
  pub inverse : IsCodeTable node.table
  pub identity : byte_at node.table.encode ip_magic_header ≡ uid

abbrev pub AllUsers : (ℕ → ClientNode) → Option Users → Type 0
AllUsers allocated none = Unit
AllUsers allocated (some users) =
    (length users ≡ 256)
    × ((uid : ℕ) (node : ClientNode) → slot users uid ≡ some node → HasPassword allocated uid node)

module _ (allocated : ℕ → ClientNode) (stack : Md5Ctx)
    (memory : (id : ℕ) → IsAllocated (allocated id).table) (room : length stack.buffer ≡ 64) where
  new_user-HasPassword :
      (uid : ℕ) (w : List ℕ)
      → uid < 256
      → length w < 128
      → HasPassword allocated uid (new_user allocated stack uid w)
  unfolding new_user
  new_user-HasPassword uid w h l = record {
    password = c_string w;
    number = h;
    from_password = table;
    inverse = rw table good.0;
    identity = rw table good.1;
  }
    where
      good :
          IsCodeTable (build_table (allocated uid).table (md5_reference (c_string w)) uid)
          × (byte_at
                (build_table (allocated uid).table (md5_reference (c_string w)) uid).encode
                ip_magic_header
              ≡ uid)
      good =
          build_table-IsCodeTable (allocated uid).table (md5_reference (c_string w)) uid
            (memory uid) (md5_reference-IsBytes (c_string w)) h

      byte_number : u8 uid ≡ uid
      byte_number = omega arith

      table :
          build_table (allocated uid).table (md5_fast stack (c_string w) (strlen w)) (u8 uid)
          ≡ build_table (allocated uid).table (md5_reference (c_string w)) uid
      table =
          ap₂ (build_table (allocated uid).table)
            (md5_fast-eq-reference stack (c_string w) (strlen w) room (omega arith)
                (omega (arith, strlen_le w))
              ∙ ap md5_reference (take-length (c_string w)))
            byte_number

  -- From a file, over memory with the two arrays of each table and a context with its buffer,
  -- `svpn_server_init_client` ends with a result unless it runs into undefined behaviour: there
  -- are 256 places, and each user's tables are those of RFC 1321's digest of a password and of the
  -- user's number, inverse to one another and with the number for the code of 0x45.
  pub init_client-AllUsers :
      (file : Option (List ℕ)) → Returns (AllUsers allocated) (init_client allocated stack file)
  unfolding init_client
  init_client-AllUsers none = tt
  init_client-AllUsers (some file) =
      finish _ (
        users_loop-Extends allocated stack (length file + 1) file (replicate 256 none)
          (omega arith))
    where
      finish :
          (o : Parsed Users)
          → Returns (Extends allocated stack (replicate 256 none)) o
          → Returns (AllUsers allocated) (o >>= λ users. done (some users))
      finish (done users) x = (
        x.count ∙ length-replicate {A = Option ClientNode} 256 none,
        λ uid node h. entry uid node (x.added uid node h),
      )
        where
          entry :
              (uid : ℕ) (node : ClientNode)
              → (slot (replicate 256 none) uid ≡ some node)
                ⊎ ((w : List ℕ) × (length w < 128)
                    × (uid < 256)
                    × (node ≡ new_user allocated stack uid w))
              → HasPassword allocated uid node
          entry uid node (inl old) =
              absurd (none-ne-some node (sym (get_or-replicate 256 uid none) ∙ old))
          entry uid node (inr (w, l, h, e)) = rw e (new_user-HasPassword uid w h l)
      finish fault x = tt
      finish out_of_fuel x = x
