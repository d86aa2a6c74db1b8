-- ===== src/Scan/Laws.antt =====
-- A word that is read leaves less of the file, and no function leaves more.
use s_vpn.Scan.{strlen}
use s_vpn.Common.{ℕ, ◌≤◌, List, [], ◌∷◌, length, ◌==◌, Bool-cases, inl, inr, arith}
use s_vpn.Common.{
  ℕ, zero, suc, ◌+◌, ◌≤◌, ◌≡◌, refl, ap, arith, List, [], ◌∷◌, ◌++◌, length, ◌==◌, true, false,
  some,
}
use s_vpn.Common.Int.{pos}
use s_vpn.Scan.{
  is_space, is_digit, skip_spaces, word_of, after_word, nonempty, scan_word, digits_of,
  after_digits, decimal, after_sign, scan_number, skip_line,
}

length-skip_spaces : (cs : List ℕ) → length (skip_spaces cs) ≤ length cs
unfolding skip_spaces
length-skip_spaces [] = omega arith
length-skip_spaces (c ∷ cs) = ground (arith, length-skip_spaces cs)

length-after_word : (cs : List ℕ) → length (after_word cs) + length (word_of cs) ≡ length cs
unfolding after_word word_of
length-after_word [] = omega arith
length-after_word (c ∷ cs) = ground (arith, length-after_word cs)

nonempty-length : (v w : List ℕ) → nonempty v ≡ some w → (length v ≡ length w) × (1 ≤ length w)
nonempty-length [] w e = cc
nonempty-length (x ∷ xs) w e =
    let same : x ∷ xs ≡ w = cc in (ap length same, rw (← same) (omega arith))

-- A word that is read is not empty, and what is left of the file is shorter by it.
pub length-scan_word :
    (cs w : List ℕ)
    → (scan_word cs).value ≡ some w
    → (length (scan_word cs).rest + length w ≤ length cs) × (1 ≤ length w)
unfolding scan_word
length-scan_word cs w h = omega (
  arith,
  length-skip_spaces cs,
  length-after_word (skip_spaces cs),
  nonempty-length (word_of (skip_spaces cs)) w h,
)

pub length-scan_word_rest : (cs : List ℕ) → length (scan_word cs).rest ≤ length cs
unfolding scan_word
length-scan_word_rest cs = omega (arith, length-skip_spaces cs, length-after_word (skip_spaces cs))

length-after_digits : (cs : List ℕ) → length (after_digits cs) ≤ length cs
unfolding after_digits
length-after_digits [] = omega arith
length-after_digits (c ∷ cs) = ground (arith, length-after_digits cs)

length-after_sign : (cs : List ℕ) → length (after_sign cs) ≤ length cs
length-after_sign [] = omega arith
length-after_sign (c ∷ cs) = ground arith

pub length-scan_number : (cs : List ℕ) → length (scan_number cs).rest ≤ length cs
unfolding scan_number
length-scan_number cs = omega (
  arith,
  length-skip_spaces cs,
  length-after_sign (skip_spaces cs),
  length-after_digits (after_sign (skip_spaces cs)),
)

pub length-skip_line : (n : ℕ) (cs : List ℕ) → length (skip_line n cs) ≤ length cs
unfolding skip_line
length-skip_line zero cs = omega arith
length-skip_line (suc n) [] = omega arith
length-skip_line (suc n) (c ∷ cs) = ground (arith, length-skip_line n cs)

abbrev pub AllDigits : List ℕ → Type 0
AllDigits [] = Unit
AllDigits (c ∷ cs) = (is_digit c ≡ true) × AllDigits cs

-- No white space in a word.
abbrev pub IsWord : List ℕ → Type 0
IsWord [] = Unit
IsWord (c ∷ cs) = (is_space c ≡ false) × IsWord cs

digits_of-digits :
    (ds rest : List ℕ)
    → AllDigits ds
    → (digits_of (ds ++ (32 ∷ rest)) ≡ ds) × (after_digits (ds ++ (32 ∷ rest)) ≡ 32 ∷ rest)
unfolding digits_of after_digits
digits_of-digits [] rest h = (refl, refl)
digits_of-digits (c ∷ cs) rest h =
    let (a, b) = digits_of-digits cs rest h.1 in (rw (h.0, a), rw (h.0, b))

digit-plain :
    (c : ℕ)
    → is_digit c ≡ true
    → (is_space c ≡ false) × ((c == b'-') ≡ false) × ((c == b'+') ≡ false)
digit-plain c h = (ground arith, ground arith, ground arith)

-- A number of digits, between two blanks.
pub scan_number-digits :
    (c : ℕ) (ds rest : List ℕ)
    → AllDigits (c ∷ ds)
    → ((scan_number (32 ∷ (c ∷ ds) ++ (32 ∷ rest))).value ≡ some (pos (decimal 0 (c ∷ ds))))
      × ((scan_number (32 ∷ (c ∷ ds) ++ (32 ∷ rest))).rest ≡ 32 ∷ rest)
unfolding scan_number skip_spaces
scan_number-digits c ds rest h =
    let (plain, no_minus, no_sign) = digit-plain c h.0 in
    let (digits, left) = digits_of-digits (c ∷ ds) rest h in
    (rw (plain, no_minus, no_sign, digits), rw (plain, no_minus, no_sign, left))

word_of-word :
    (w rest : List ℕ)
    → IsWord w
    → (word_of (w ++ (10 ∷ rest)) ≡ w) × (after_word (w ++ (10 ∷ rest)) ≡ 10 ∷ rest)
unfolding word_of after_word
word_of-word [] rest h = (refl, refl)
word_of-word (c ∷ cs) rest h = let (a, b) = word_of-word cs rest h.1 in (rw (h.0, a), rw (h.0, b))

-- A word, between a blank and the end of the line.
pub scan_word-word :
    (c : ℕ) (w rest : List ℕ)
    → IsWord (c ∷ w)
    → ((scan_word (32 ∷ (c ∷ w) ++ (10 ∷ rest))).value ≡ some (c ∷ w))
      × ((scan_word (32 ∷ (c ∷ w) ++ (10 ∷ rest))).rest ≡ 10 ∷ rest)
unfolding scan_word skip_spaces
scan_word-word c w rest h = let (a, b) = word_of-word (c ∷ w) rest h in (rw (h.0, a), rw (h.0, b))

pub strlen_le : (cs : List ℕ) → strlen cs ≤ length cs
strlen_le [] = omega arith
strlen_le (c ∷ cs) = elim (Bool-cases (c == 0)) [
  | inl e ↦ rw e (omega arith)
  | inr n ↦ rw n (omega (arith, strlen_le cs))
]
