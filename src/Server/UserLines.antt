-- ===== src/Server/UserLines.antt =====
-- The line of one user in the configuration.
use s_vpn.Common.{
  ℕ, suc, ◌<◌, ◌≡◌, refl, ◌∙◌, ap, arith, List, ◌∷◌, ◌++◌, length, set, ltb, true, none, some,
}
use s_vpn.Common.Int.{pos}
use s_vpn.Scan.{
  scan_word, skip_spaces, word_of, after_word, skip_line, eq_nocase, eq_letters, decimal,
}
use s_vpn.Scan.Laws.{AllDigits, IsWord, scan_number-digits, scan_word-word}
use s_vpn.Md5.{Md5Ctx}
use s_vpn.Server.Loop.{ClientNode, codes}
use s_vpn.Server.Users.{
  ◌>>=◌, Users, new_user, store_password, read_password, read_id, read_user, read_line, users_loop,
}
use s_vpn.Server.UsersLaws.{slot, users_loop-word}

-- `user`, a number of digits, a password, and the rest of the file.
abbrev pub user_line : ℕ → List ℕ → ℕ → List ℕ → List ℕ → List ℕ
user_line c ds e w rest = codes "user" ++ (32 ∷ (c ∷ ds) ++ (32 ∷ (e ∷ w) ++ (10 ∷ rest)))

-- The same with any rest of the line.
abbrev pub bad_line : ℕ → List ℕ → List ℕ → List ℕ
bad_line c ds rest = codes "user" ++ (32 ∷ (c ∷ ds) ++ (32 ∷ rest))

first_word :
    (rest : List ℕ)
    → ((scan_word (codes "user" ++ (32 ∷ rest))).value ≡ some (codes "user"))
      × ((scan_word (codes "user" ++ (32 ∷ rest))).rest ≡ 32 ∷ rest)
unfolding scan_word skip_spaces word_of after_word
first_word rest = (refl, refl)

is_user : eq_nocase (codes "user") (codes "user") ≡ true
unfolding eq_nocase eq_letters
is_user = refl

end_of_line : (rest : List ℕ) → skip_line 127 (10 ∷ rest) ≡ rest
unfolding skip_line
end_of_line rest = refl

module _ (allocated : ℕ → ClientNode) (stack : Md5Ctx) where
  read_line-user :
      (users : Users) (c : ℕ) (ds rest : List ℕ)
      → AllDigits (c ∷ ds)
      → read_line allocated stack users (codes "user") (32 ∷ (c ∷ ds) ++ (32 ∷ rest))
        ≡ read_id allocated stack users (32 ∷ rest) (some (pos (decimal 0 (c ∷ ds))))
  unfolding read_line read_user
  read_line-user users c ds rest h =
      let (value, left) = scan_number-digits c ds rest h in rw (is_user, value, left)

  -- The rounds of the loop at a line that begins with `user`.
  users_loop-user :
      (fuel : ℕ) (users : Users) (c : ℕ) (ds rest : List ℕ)
      → AllDigits (c ∷ ds)
      → users_loop allocated stack (suc fuel) (bad_line c ds rest) users ≡ (
          read_id allocated stack users (32 ∷ rest) (some (pos (decimal 0 (c ∷ ds)))) >>= λ line.
          users_loop allocated stack fuel (skip_line 127 line.1) line.0)
  users_loop-user fuel users c ds rest h =
      users_loop-word allocated stack fuel (bad_line c ds rest) users (codes "user")
        (first_word ((c ∷ ds) ++ (32 ∷ rest))).0
      ∙ ap (λ o. o >>= λ line. users_loop allocated stack fuel (skip_line 127 line.1) line.0)
          (ap (read_line allocated stack users (codes "user"))
              (first_word ((c ∷ ds) ++ (32 ∷ rest))).1
            ∙ read_line-user users c ds rest h)

  read_id-pos :
      (users : Users) (input : List ℕ) (id : ℕ)
      → id < 256
      → read_id allocated stack users input (some (pos id))
        ≡ read_password allocated stack users id input (slot users id)
  unfolding read_id
  read_id-pos users input id h = rw (below id h) refl
    where
      below : (n : ℕ) → n < 256 → ltb n 256 ≡ true
      below n h = ground arith

  -- A line `user <id> <password>`, with a number below 256 that has no user yet and a password of
  -- at most 127 bytes without a space, adds the user with this password, up to a zero byte if it has
  -- one, at his number's place, and the loop goes on behind the line.
  pub users_loop-adds :
      (fuel : ℕ) (users : Users) (c : ℕ) (ds : List ℕ) (e : ℕ) (w rest : List ℕ) (id : ℕ)
      → AllDigits (c ∷ ds)
      → decimal 0 (c ∷ ds) ≡ id
      → id < 256
      → IsWord (e ∷ w)
      → length w < 127
      → slot users id ≡ none
      → users_loop allocated stack (suc fuel) (user_line c ds e w rest) users
        ≡ users_loop allocated stack fuel rest
            (set users id (some (new_user allocated stack id (e ∷ w))))
  unfolding read_password store_password
  users_loop-adds fuel users c ds e w rest id digits number small word short free =
      let (value, left) = scan_word-word e w rest word in
      users_loop-user fuel users c ds ((e ∷ w) ++ (10 ∷ rest)) digits
      ∙ rw
          (
            number,
            read_id-pos users (32 ∷ (e ∷ w) ++ (10 ∷ rest)) id small,
            free,
            value,
            left,
            fits (length w) short,
          )
          (ap
            (λ r.
              users_loop allocated stack fuel r
                (set users id (some (new_user allocated stack id (e ∷ w)))))
            (end_of_line rest))
    where
      fits : (n : ℕ) → n < 127 → ltb (suc n) 128 ≡ true
      fits n h = ground arith
