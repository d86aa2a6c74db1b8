-- ===== src/Common/Lists.antt =====
-- C arrays as lists, measured and indexed by native numbers.
use Prim.Native.Nat.{ℕ, zero, suc, ◌+◌, ◌-◌, ◌≤◌, ◌<◌, min}
use mathlib.Core.Path.{◌≡◌, refl, ap, ap₂, ◌∙◌}
use mathlib.Core.Bool.{Bool, true, ◌&&◌}
use mathlib.Core.List.{List, [], ◌∷◌, ◌++◌}
use native.Mathlib.Omega.{arith}
use s_vpn.Common.Tests.{ltb, ◌==◌, if◌then◌else◌}

module _ {ℓ} {A : Type ℓ} where
  abbrev pub length : List A → ℕ
  length [] = 0
  length (x ∷ xs) = suc (length xs)

  -- A read out of bounds gives the default.
  abbrev pub get_or : List A → ℕ → A → A
  get_or [] i d = d
  get_or (x ∷ xs) zero d = x
  get_or (x ∷ xs) (suc i) d = get_or xs i d

  -- A write out of bounds changes nothing.
  abbrev pub set : List A → ℕ → A → List A
  set [] i v = []
  set (x ∷ xs) zero v = v ∷ xs
  set (x ∷ xs) (suc i) v = x ∷ set xs i v

  abbrev pub take : ℕ → List A → List A
  take zero xs = []
  take (suc n) [] = []
  take (suc n) (x ∷ xs) = x ∷ take n xs

  abbrev pub drop : ℕ → List A → List A
  drop zero xs = xs
  drop (suc n) [] = []
  drop (suc n) (x ∷ xs) = drop n xs

  abbrev pub replicate : ℕ → A → List A
  replicate zero a = []
  replicate (suc n) a = a ∷ replicate n a

  pub length-set : (xs : List A) (i : ℕ) (v : A) → length (set xs i v) ≡ length xs
  length-set [] i v = refl
  length-set (x ∷ xs) zero v = refl
  length-set (x ∷ xs) (suc i) v = ap suc (length-set xs i v)

  pub get_or-set :
      (xs : List A) (i j : ℕ) (v d : A)
      → get_or (set xs i v) j d ≡ (if i == j && ltb i (length xs) then v else get_or xs j d)
  get_or-set [] i j v d = ground arith
  get_or-set (x ∷ xs) zero zero v d = ground arith
  get_or-set (x ∷ xs) zero (suc j) v d = ground arith
  get_or-set (x ∷ xs) (suc i) zero v d = ground arith
  get_or-set (x ∷ xs) (suc i) (suc j) v d = ground (arith, get_or-set xs i j v d)

  pub get_or-replicate : (n j : ℕ) (d : A) → get_or (replicate n d) j d ≡ d
  get_or-replicate zero j d = refl
  get_or-replicate (suc n) zero d = refl
  get_or-replicate (suc n) (suc j) d = get_or-replicate n j d

  pub get_or-out : (xs : List A) (i : ℕ) (d : A) → length xs ≤ i → get_or xs i d ≡ d
  get_or-out [] i d h = refl
  get_or-out (x ∷ xs) zero d h = absurd (omega arith)
  get_or-out (x ∷ xs) (suc i) d h = get_or-out xs i d (omega arith)

  pub get_or_ext :
      (d : A) (xs ys : List A)
      → length xs ≡ length ys
      → ((i : ℕ) → get_or xs i d ≡ get_or ys i d)
      → xs ≡ ys
  get_or_ext d [] [] e h = refl
  get_or_ext d [] (y ∷ ys) e h = absurd (omega arith)
  get_or_ext d (x ∷ xs) [] e h = absurd (omega arith)
  get_or_ext d (x ∷ xs) (y ∷ ys) e h =
      ap₂ ◌∷◌ (h 0) (get_or_ext d xs ys (omega arith) (λ i. h (suc i)))

  pub length-append : (xs ys : List A) → length (xs ++ ys) ≡ length xs + length ys
  length-append [] ys = omega arith
  length-append (x ∷ xs) ys = omega (arith, length-append xs ys)

  pub length-take : (n : ℕ) (xs : List A) → length (take n xs) ≡ min n (length xs)
  length-take zero xs = omega arith
  length-take (suc n) [] = omega arith
  length-take (suc n) (x ∷ xs) = omega (arith, length-take n xs)

  pub length-drop : (n : ℕ) (xs : List A) → length (drop n xs) ≡ length xs - n
  length-drop zero xs = omega arith
  length-drop (suc n) [] = omega arith
  length-drop (suc n) (x ∷ xs) = omega (arith, length-drop n xs)

  pub length-replicate : (n : ℕ) (a : A) → length (replicate n a) ≡ n
  length-replicate zero a = refl
  length-replicate (suc n) a = ap suc (length-replicate n a)

  pub take-length : (xs : List A) → take (length xs) xs ≡ xs
  take-length [] = refl
  take-length (x ∷ xs) = ap (λ t. x ∷ t) (take-length xs)

  pub get_or-take :
      (n : ℕ) (xs : List A) (i : ℕ) (d : A)
      → get_or (take n xs) i d ≡ (if ltb i n then get_or xs i d else d)
  get_or-take zero xs i d = ground arith
  get_or-take (suc n) [] i d = ground arith
  get_or-take (suc n) (x ∷ xs) zero d = ground arith
  get_or-take (suc n) (x ∷ xs) (suc i) d = ground (arith, get_or-take n xs i d)

  pub get_or-take_lt :
      (n : ℕ) (xs : List A) (i : ℕ) (d : A) → i < n → get_or (take n xs) i d ≡ get_or xs i d
  get_or-take_lt n xs i d h = ground (arith, get_or-take n xs i d)

  pub get_or-drop :
      (n : ℕ) (xs : List A) (i : ℕ) (d : A) → get_or (drop n xs) i d ≡ get_or xs (n + i) d
  get_or-drop zero xs i d = ap (λ k. get_or xs k d) (omega arith)
  get_or-drop (suc n) [] i d = refl
  get_or-drop (suc n) (x ∷ xs) i d = get_or-drop n xs i d ∙ ap (λ k. get_or (x ∷ xs) k d) shift
    where
      shift : suc (n + i) ≡ suc n + i
      shift = omega arith

  pub get_or-append :
      (xs ys : List A) (i : ℕ) (d : A)
      → get_or (xs ++ ys) i d
        ≡ (if ltb i (length xs) then get_or xs i d else get_or ys (i - length xs) d)
  get_or-append [] ys i d = ground arith
  get_or-append (x ∷ xs) ys zero d = ground arith
  get_or-append (x ∷ xs) ys (suc i) d = ground (arith, get_or-append xs ys i d)

-- The byte at an index of an array.
abbrev pub byte_at : List ℕ → ℕ → ℕ
byte_at xs i = get_or xs i 0

abbrev pub IsBytes : List ℕ → Type 0
IsBytes xs = (i : ℕ) → byte_at xs i < 256

-- The test for a concrete array.
abbrev pub are_bytes : List ℕ → Bool
are_bytes [] = true
are_bytes (x ∷ xs) = ltb x 256 && are_bytes xs

pub are_bytes-IsBytes : (xs : List ℕ) → are_bytes xs ≡ true → IsBytes xs
are_bytes-IsBytes [] h i = omega arith
are_bytes-IsBytes (x ∷ xs) h zero = ground arith
are_bytes-IsBytes (x ∷ xs) h (suc i) = ground (arith, are_bytes-IsBytes xs _ i)
