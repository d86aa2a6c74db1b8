-- ===== src/Server/UsersLaws.antt =====
-- Reading the users from the configuration.
use s_vpn.Common.{
  ℕ, zero, suc, ◌≤◌, ◌<◌, ◌≡◌, ◌⊎◌, refl, sym, ◌∙◌, ap, arith, List, length, get_or, set,
  get_or-set, length-set, ◌==◌, if◌then◌else◌, Bool-cases, Option-cases, inl, inr, ltb, ◌&&◌, true,
  false, ℕ_discrete, Option, none, some,
}
use s_vpn.Common.Int.{ℤ, pos, negsuc}
use s_vpn.Scan.{scan_word, scan_number, skip_line, eq_nocase}
use s_vpn.Scan.Laws.{length-scan_word, length-scan_word_rest, length-scan_number, length-skip_line}
use s_vpn.Md5.{Md5Ctx}
use s_vpn.Server.Loop.{ClientNode, codes}
use s_vpn.Server.Users.{
  Parsed, done, fault, out_of_fuel, ◌>>=◌, fits_tmpstr, Users, new_user, store_password,
  read_password, read_id, read_user, read_line, users_loop,
}

-- A postcondition of a line or of the loop, if it ends well.
abbrev pub Returns : {A : Type 0} → (A → Type 0) → Parsed A → Type 0
Returns P (done a) = P a
Returns P fault = Unit
Returns P out_of_fuel = ⊥

abbrev pub slot : Users → ℕ → Option ClientNode
slot users j = get_or users j none

module _ (allocated : ℕ → ClientNode) (stack : Md5Ctx) where
  -- From `users` to `users'` at most users that were missing have come, with their passwords.
  pub record Extends (users users' : Users) : Type 0 where
    pub count : length users' ≡ length users
    pub kept : (j : ℕ) (node : ClientNode) → slot users j ≡ some node → slot users' j ≡ some node
    pub added :
        (j : ℕ) (node : ClientNode)
        → slot users' j ≡ some node
        → (slot users j ≡ some node)
          ⊎ ((w : List ℕ) × (length w < 128) × (j < 256) × (node ≡ new_user allocated stack j w))

  pub Extends-refl : (users : Users) → Extends users users
  Extends-refl users = record { count = refl; kept = λ j node h. h; added = λ j node h. inl h }

  pub Extends-trans : {a b c : Users} → Extends a b → Extends b c → Extends a c
  Extends-trans x y = record {
    count = y.count ∙ x.count;
    kept = λ j node h. y.kept j node (x.kept j node h);
    added =
        λ j node h. elim (y.added j node h) [ inl old ↦ x.added j node old | inr new ↦ inr new ];
  }

  new_user-Extends :
      (users : Users) (id : ℕ) (w : List ℕ)
      → id < 256
      → length w < 128
      → slot users id ≡ none
      → Extends users (set users id (some (new_user allocated stack id w)))
  new_user-Extends users id w hid hw free = record {
    count = length-set users id _;
    kept = λ j node h. at j ∙ rw (elsewhere j node h) h;
    added = λ j node h. elim (Bool-cases (id == j && ltb id (length users))) [
      | inl here ↦ inr (w, hw, same j here, mine j node here (rw here at (sym (at j) ∙ h)))
      | inr away ↦ inl (rw away at (sym (at j) ∙ h))
    ];
  }
    where
      at :
          (j : ℕ)
          → slot (set users id (some (new_user allocated stack id w))) j ≡ (
              if id == j && ltb id (length users)
              then some (new_user allocated stack id w)
              else slot users j)
      at j = get_or-set users id j (some (new_user allocated stack id w)) none

      elsewhere :
          (j : ℕ) (node : ClientNode)
          → slot users j ≡ some node
          → (id == j && ltb id (length users)) ≡ false
      elsewhere j node h = elim (ℕ_discrete id j) [
        | yes e ↦ absurd (none-ne-some (sym free ∙ ap (slot users) e ∙ h))
        | no n ↦ differs j n
      ]
        where
          none-ne-some : none ≡ some node → ⊥
          none-ne-some q = cc

          differs : (j : ℕ) → ¬ (id ≡ j) → (id == j && ltb id (length users)) ≡ false
          differs j n = ground arith

      same : (j : ℕ) → (id == j && ltb id (length users)) ≡ true → j < 256
      same j here = ground arith

      mine :
          (j : ℕ) (node : ClientNode)
          → (id == j && ltb id (length users)) ≡ true
          → ◌≡◌ {A = Option ClientNode} (some (new_user allocated stack id w)) (some node)
          → node ≡ new_user allocated stack j w
      mine j node here e =
          let q : new_user allocated stack id w ≡ node = cc in
          sym q ∙ ap (λ k. new_user allocated stack k w) (number j here)
        where
          number : (j : ℕ) → (id == j && ltb id (length users)) ≡ true → id ≡ j
          number j here = ground arith

  -- What a line does to the users, and that it reads on.
  abbrev pub Reads : Users → List ℕ → Users × List ℕ → Type 0
  Reads users input line = Extends users line.0 × (length line.1 ≤ length input)

  store_password-Reads :
      (users : Users) (id : ℕ) (input : List ℕ) (o : Option (List ℕ))
      → id < 256
      → slot users id ≡ none
      → Returns (Reads users input) (store_password allocated stack users id input o)
  unfolding store_password
  store_password-Reads users id input none h free = (Extends-refl users, omega arith)
  store_password-Reads users id input (some w) h free = elim (Bool-cases (fits_tmpstr w)) [
    | inl ok ↦ rw ok (new_user-Extends users id w h (short (length w) ok) free, omega arith)
    | inr long ↦ rw long tt
  ]
    where
      short : (n : ℕ) → ltb n 128 ≡ true → n < 128
      short n e = ground arith

  -- A line may leave less than what is given on to a later part of it.
  Returns-shorter :
      (users : Users) (input rest : List ℕ) (o : Parsed (Users × List ℕ))
      → length rest ≤ length input
      → Returns (Reads users rest) o
      → Returns (Reads users input) o
  Returns-shorter users input rest (done line) h r = (r.0, omega arith)
  Returns-shorter users input rest fault h r = tt
  Returns-shorter users input rest out_of_fuel h r = r

  read_password-Reads :
      (users : Users) (id : ℕ) (input : List ℕ) (o : Option ClientNode)
      → id < 256
      → slot users id ≡ o
      → Returns (Reads users input) (read_password allocated stack users id input o)
  unfolding read_password
  read_password-Reads users id input (some node) h e = (Extends-refl users, omega arith)
  read_password-Reads users id input none h e =
      Returns-shorter users input (scan_word input).rest _ (length-scan_word_rest input)
        (store_password-Reads users id (scan_word input).rest (scan_word input).value h e)

  read_id-Reads :
      (users : Users) (input : List ℕ) (o : Option ℤ)
      → Returns (Reads users input) (read_id allocated stack users input o)
  unfolding read_id
  read_id-Reads users input none = (Extends-refl users, omega arith)
  read_id-Reads users input (some (negsuc n)) = tt
  read_id-Reads users input (some (pos id)) = elim (Bool-cases (ltb id 256)) [
    | inl ok ↦ rw ok (read_password-Reads users id input (get_or users id none) (small ok) refl)
    | inr out ↦ rw out tt
  ]
    where
      small : ltb id 256 ≡ true → id < 256
      small e = ground arith

  read_line-Reads :
      (users : Users) (word input : List ℕ)
      → Returns (Reads users input) (read_line allocated stack users word input)
  unfolding read_line read_user
  read_line-Reads users word input = elim (Bool-cases (fits_tmpstr word)) [
    | inr long ↦ rw long tt
    | inl ok ↦ elim (Bool-cases (eq_nocase word (codes "user"))) [
      | inl user ↦
          rw (ok, user)
            (Returns-shorter users input (scan_number input).rest _ (length-scan_number input)
              (read_id-Reads users (scan_number input).rest (scan_number input).value))
      | inr other ↦ rw (ok, other) (Extends-refl users, omega arith)
    ]
  ]

  users_loop-ended :
      (fuel : ℕ) (input : List ℕ) (users : Users)
      → (scan_word input).value ≡ none
      → users_loop allocated stack (suc fuel) input users ≡ done users
  unfolding users_loop
  users_loop-ended fuel input users e = rw (e, users_loop)

  pub users_loop-word :
      (fuel : ℕ) (input : List ℕ) (users : Users) (word : List ℕ)
      → (scan_word input).value ≡ some word
      → users_loop allocated stack (suc fuel) input users ≡ (
          read_line allocated stack users word (scan_word input).rest >>= λ line.
          users_loop allocated stack fuel (skip_line 127 line.1) line.0)
  unfolding users_loop
  users_loop-word fuel input users word e = rw (e, users_loop)

  -- With more fuel than the input has bytes, the loop over the lines ends with a result unless it
  -- runs into undefined behaviour: it keeps each user that was there and the number of places, and
  -- each user it adds has a number below 256 and the tables of a password shorter than 128 bytes.
  pub users_loop-Extends :
      (fuel : ℕ) (input : List ℕ) (users : Users)
      → length input < fuel
      → Returns (Extends users) (users_loop allocated stack fuel input users)
  users_loop-Extends zero input users h = absurd (omega arith)
  users_loop-Extends (suc fuel) input users h = elim (Option-cases (scan_word input).value) [
    | inl ended ↦ rw (users_loop-ended fuel input users ended) (Extends-refl users)
    | inr (word, e) ↦ rw (users_loop-word fuel input users word e) (
        continue (read_line allocated stack users word (scan_word input).rest)
          (read_line-Reads users word (scan_word input).rest)
          (λ line shorter.
            users_loop-Extends fuel (skip_line 127 line.1) line.0
              (omega (arith, length-skip_line 127 line.1, length-scan_word input word e))))
  ]
    where
      continue :
          (o : Parsed (Users × List ℕ))
          → Returns (Reads users (scan_word input).rest) o
          → ((line : Users × List ℕ)
              → length line.1 ≤ length (scan_word input).rest
              → Returns
                  (Extends line.0)
                  (users_loop allocated stack fuel (skip_line 127 line.1) line.0))
          → Returns
              (Extends users)
              (o >>= λ line. users_loop allocated stack fuel (skip_line 127 line.1) line.0)
      continue (done line) r next =
          further (users_loop allocated stack fuel (skip_line 127 line.1) line.0) r.0
            (next line r.1)
        where
          further :
              (o : Parsed Users)
              → Extends users line.0
              → Returns (Extends line.0) o
              → Returns (Extends users) o
          further (done a) x y = Extends-trans x y
          further fault x y = tt
          further out_of_fuel x y = y
      continue fault r next = tt
      continue out_of_fuel r next = r
