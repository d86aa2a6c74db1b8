-- ===== src/Scan.antt =====
-- The functions of the C library by which the server reads its configuration, over the bytes that
-- are left of the file: `fscanf` with "%s" and "%d", `fgets`, and `strcasecmp`.
pub mod Laws
use s_vpn.Common.{
  ℕ, zero, suc, ◌+◌, ◌-◌, ◌*◌, List, [], ◌∷◌, length, ◌==◌, if◌then◌else◌, leb, ◌&&◌, ◌||◌, Bool,
  true, false, Option, none, some,
}
use s_vpn.Common.Int.{ℤ, pos, ◌-ℤ◌}

-- `isspace`
abbrev pub is_space : ℕ → Bool
is_space c = c == 32 || (leb 9 c && leb c 13)

abbrev pub is_digit : ℕ → Bool
is_digit c = leb b'0' c && leb c b'9'

unfoldable pub skip_spaces : List ℕ → List ℕ
skip_spaces [] = []
skip_spaces (c ∷ cs) = if is_space c then skip_spaces cs else c ∷ cs

-- The bytes up to the next white space.
unfoldable pub word_of : List ℕ → List ℕ
word_of [] = []
word_of (c ∷ cs) = if is_space c then [] else c ∷ word_of cs

unfoldable pub after_word : List ℕ → List ℕ
after_word [] = []
after_word (c ∷ cs) = if is_space c then c ∷ cs else after_word cs

-- What is read, if anything is, and what is left.
pub record Scanned (A : Type 0) : Type 0 where
  pub value : Option A
  pub rest : List ℕ

abbrev pub nonempty : List ℕ → Option (List ℕ)
nonempty [] = none
nonempty (c ∷ cs) = some (c ∷ cs)

-- `fscanf(fin, "%s", …)`
unfoldable pub scan_word : List ℕ → Scanned (List ℕ)
unfolding skip_spaces word_of after_word
scan_word input =
    let from = skip_spaces input in
    record { value = nonempty (word_of from); rest = after_word from }

unfoldable pub digits_of : List ℕ → List ℕ
digits_of [] = []
digits_of (c ∷ cs) = if is_digit c then c ∷ digits_of cs else []

unfoldable pub after_digits : List ℕ → List ℕ
after_digits [] = []
after_digits (c ∷ cs) = if is_digit c then after_digits cs else c ∷ cs

-- The number that the digits write, after those that make `acc`.
unfoldable pub decimal : ℕ → List ℕ → ℕ
decimal acc [] = acc
decimal acc (c ∷ cs) = decimal (acc * 10 + (c - b'0')) cs

-- `+` or `-` before the digits.
abbrev pub is_minus : List ℕ → Bool
is_minus [] = false
is_minus (c ∷ cs) = c == b'-'

abbrev pub after_sign : List ℕ → List ℕ
after_sign [] = []
after_sign (c ∷ cs) = if c == b'-' || c == b'+' then cs else c ∷ cs

abbrev pub signed : Bool → ℕ → ℤ
signed true n = pos 0 -ℤ pos n
signed false n = pos n

abbrev pub number : Bool → List ℕ → Option ℤ
number minus [] = none
number minus (c ∷ cs) = some (signed minus (decimal 0 (c ∷ cs)))

-- `fscanf(fin, "%d", …)`, before the number is stored with its width.
unfoldable pub scan_number : List ℕ → Scanned ℤ
unfolding skip_spaces digits_of after_digits
scan_number input =
    let from = skip_spaces input in
    let unsigned = after_sign from in
    record { value = number (is_minus from) (digits_of unsigned); rest = after_digits unsigned }

-- What `fgets(s, n + 1, fin)` leaves of the file.
unfoldable pub skip_line : ℕ → List ℕ → List ℕ
skip_line zero cs = cs
skip_line (suc n) [] = []
skip_line (suc n) (c ∷ cs) = if c == 10 then cs else skip_line n cs

abbrev pub to_lower : ℕ → ℕ
to_lower c = if leb b'A' c && leb c b'Z' then c + 32 else c

-- The string in an array, up to its first zero, and `strlen`.
abbrev pub c_string : List ℕ → List ℕ
c_string [] = []
c_string (c ∷ cs) = if c == 0 then [] else c ∷ c_string cs

abbrev pub strlen : List ℕ → ℕ
strlen cs = length (c_string cs)

unfoldable pub eq_letters : List ℕ → List ℕ → Bool
eq_letters [] [] = true
eq_letters [] (d ∷ ds) = false
eq_letters (c ∷ cs) [] = false
eq_letters (c ∷ cs) (d ∷ ds) = to_lower c == to_lower d && eq_letters cs ds

-- `strcasecmp(a, b) == 0`
unfoldable pub eq_nocase : List ℕ → List ℕ → Bool
unfolding eq_letters
eq_nocase a b = eq_letters (c_string a) (c_string b)
