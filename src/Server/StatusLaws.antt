-- ===== src/Server/StatusLaws.antt =====
-- The status line shows the numbers, and `output_info` runs through exactly when time has passed.
use s_vpn.Common.{
  ℕ, zero, suc, ◌+◌, ◌-◌, ◌*◌, ◌/◌, ◌%◌, ◌^◌, ◌≤◌, ◌<◌, ◌≡◌, ◌⊎◌, refl, ◌∙◌, ap, ap₂, arith, List,
  length, byte_at, set, get_or-set, length-set, ◌==◌, if◌then◌else◌, Bool-cases, inl, inr, ltb,
  ◌&&◌, true, false,
}
use s_vpn.Common.Int.{ℤ, pos}
use s_vpn.Server.Status.{
  column_char, column_rest, fill_loop, fillnum, fillnum64, Tstat, fill_status,
}

-- The number that a reader of the columns sees, from the right: a blank counts nothing, and each
-- fourth column is for a comma.
abbrev pub digit_of : ℕ → ℕ
digit_of c = if c == b' ' then 0 else c - b'0'

unfoldable pub read_columns : ℕ → List ℕ → ℕ → ℕ → ℕ
read_columns zero s off len = 0
read_columns (suc lenb) s off len =
    let rest = read_columns lenb s off len in
    if (len - suc lenb) % 4 == 3 then rest else digit_of (byte_at s (off + lenb)) + 10 * rest

-- One more than the largest number that fits the columns.
unfoldable pub capacity : ℕ → ℕ → ℕ
capacity zero len = 1
capacity (suc lenb) len =
    let rest = capacity lenb len in if (len - suc lenb) % 4 == 3 then rest else 10 * rest

pub fill_loop-outside :
    (lenb : ℕ) (s : List ℕ) (off len : ℕ) (num : ℤ) (k : ℕ)
    → (k < off) ⊎ (off + lenb ≤ k)
    → byte_at (fill_loop lenb s off len num) k ≡ byte_at s k
unfolding fill_loop
fill_loop-outside zero s off len num k h = refl
fill_loop-outside (suc lenb) s off len num k h =
    fill_loop-outside lenb _ off len _ k (outside h)
    ∙ get_or-set s (off + lenb) k (column_char len (suc lenb) num) 0
    ∙ rw (not_here h)
  where
    outside : (k < off) ⊎ (off + suc lenb ≤ k) → (k < off) ⊎ (off + lenb ≤ k)
    outside (inl p) = inl p
    outside (inr q) = inr (omega arith)

    not_here :
        (k < off) ⊎ (off + suc lenb ≤ k) → (off + lenb == k && ltb (off + lenb) (length s)) ≡ false
    not_here (inl p) = ground arith
    not_here (inr q) = ground arith

pub length-fill_loop :
    (lenb : ℕ) (s : List ℕ) (off len : ℕ) (num : ℤ)
    → length (fill_loop lenb s off len num) ≡ length s
unfolding fill_loop
length-fill_loop zero s off len num = refl
length-fill_loop (suc lenb) s off len num = length-fill_loop lenb _ off len _ ∙ length-set s _ _

column-digit :
    (len lenb n : ℕ)
    → ((len - lenb) % 4 == 3) ≡ false
    → (digit_of (column_char len lenb (pos n)) ≡ n % 10)
      × (column_rest len lenb (pos n) ≡ pos (n / 10))
unfolding column_char column_rest
column-digit len lenb zero h = (refl, refl)
column-digit len lenb (suc n) h = rw h (ground arith)

column-comma :
    (len lenb n : ℕ) → ((len - lenb) % 4 == 3) ≡ true → column_rest len lenb (pos n) ≡ pos n
unfolding column_rest
column-comma len lenb n h = ground arith

-- What stands in column `off + lenb` after the whole loop.
last_column :
    (lenb : ℕ) (s : List ℕ) (off len : ℕ) (num : ℤ)
    → off + suc lenb ≤ length s
    → byte_at (fill_loop (suc lenb) s off len num) (off + lenb) ≡ column_char len (suc lenb) num
unfolding fill_loop
last_column lenb s off len num h =
    fill_loop-outside lenb _ off len _ (off + lenb) (inr (omega arith))
    ∙ get_or-set s (off + lenb) (off + lenb) (column_char len (suc lenb) num) 0
    ∙ rw here
  where
    here : (off + lenb == off + lenb && ltb (off + lenb) (length s)) ≡ true
    here = ground arith

-- Columns to the right do not count.
read_columns-set :
    (lenb : ℕ) (s s' : List ℕ) (off len : ℕ)
    → ((k : ℕ) → off ≤ k → k < off + lenb → byte_at s' k ≡ byte_at s k)
    → read_columns lenb s' off len ≡ read_columns lenb s off len
unfolding read_columns
read_columns-set zero s s' off len same = refl
read_columns-set (suc lenb) s s' off len same = rw (
  read_columns-set lenb s s' off len (λ k p q. same k p (omega arith)),
  same (off + lenb) (omega arith) (omega arith),
)

pub read-fill_loop :
    (lenb : ℕ) (s : List ℕ) (off len n : ℕ)
    → off + lenb ≤ length s
    → n < capacity lenb len
    → read_columns lenb (fill_loop lenb s off len (pos n)) off len ≡ n
unfolding fill_loop read_columns capacity
read-fill_loop zero s off len n h small = omega arith
read-fill_loop (suc lenb) s off len n h small = elim (Bool-cases ((len - suc lenb) % 4 == 3)) [
  | inl t ↦ rw t (
      ap (λ m. read_columns lenb (fill_loop lenb s' off len m) off len)
        (column-comma len (suc lenb) n t)
      ∙ read-fill_loop lenb s' off len n size (rw t at small))
  | inr f ↦ rw f (
      ap₂ (λ c r. c + 10 * r)
        (ap digit_of (last_column lenb s off len (pos n) h) ∙ (column-digit len (suc lenb) n f).0)
        (ap (λ m. read_columns lenb (fill_loop lenb s' off len m) off len)
            (column-digit len (suc lenb) n f).1
          ∙ read-fill_loop lenb s' off len (n / 10) size (tenth (rw f at small)))
      ∙ recompose)
]
  where
    s' : List ℕ
    s' = set s (off + lenb) (column_char len (suc lenb) (pos n))

    size : off + lenb ≤ length s'
    size = omega (arith, length-set s (off + lenb) (column_char len (suc lenb) (pos n)))

    tenth : n < 10 * capacity lenb len → n / 10 < capacity lenb len
    tenth l = omega arith

    recompose : n % 10 + 10 * (n / 10) ≡ n
    recompose = omega arith

pub read-fill_loop-elsewhere :
    (s : List ℕ) (off len : ℕ) (num : ℤ) (at width : ℕ)
    → (at + width ≤ off) ⊎ (off + len ≤ at)
    → read_columns width (fill_loop len s off len num) at width ≡ read_columns width s at width
read-fill_loop-elsewhere s off len num at width (inl h) =
    read_columns-set width s _ at width
      λ k p q. fill_loop-outside len s off len num k (inl (omega arith))
read-fill_loop-elsewhere s off len num at width (inr h) =
    read_columns-set width s _ at width
      λ k p q. fill_loop-outside len s off len num k (inr (omega arith))

-- The line of `output_info` holds the two totals and the two rates, each in its columns.
pub fill_status-reads :
    (s : List ℕ) (st : Tstat) (a b c d : ℕ)
    → 68 ≤ length s
    → st.total_send ≡ pos a
    → st.speed_send ≡ pos b
    → st.total_recv ≡ pos c
    → st.speed_recv ≡ pos d
    → a < 10 ^ 11
    → b < 10 ^ 7
    → c < 10 ^ 11
    → d < 10 ^ 7
    → (read_columns 14 (fill_status s st) 5 14 ≡ a)
      × (read_columns 9 (fill_status s st) 22 9 ≡ b)
      × (read_columns 14 (fill_status s st) 42 14 ≡ c)
      × (read_columns 9 (fill_status s st) 59 9 ≡ d)
unfolding fill_status fillnum fillnum64
fill_status-reads s st a b c d size ea eb ec ed ha hb hc hd = (
  rw
      (
        clear s3 59 9 _ 5 14 (inl (omega arith)),
        clear s2 42 14 _ 5 14 (inl (omega arith)),
        clear s1 22 9 _ 5 14 (inl (omega arith)),
        ea,
      )
      (read-fill_loop 14 s 5 14 a (omega arith) (unfold capacity in ha)),
  rw (clear s3 59 9 _ 22 9 (inl (omega arith)), clear s2 42 14 _ 22 9 (inl (omega arith)), eb)
      (read-fill_loop 9 s1 22 9 b (rw l1 (omega arith)) (unfold capacity in hb)),
  rw (clear s3 59 9 _ 42 14 (inl (omega arith)), ec)
      (read-fill_loop 14 s2 42 14 c (rw l2 (omega arith)) (unfold capacity in hc)),
  rw ed (read-fill_loop 9 s3 59 9 d (rw l3 (omega arith)) (unfold capacity in hd)),
)
  where
    clear :
        (s : List ℕ) (off len : ℕ) (num : ℤ) (at width : ℕ)
        → (at + width ≤ off) ⊎ (off + len ≤ at)
        → read_columns width (fill_loop len s off len num) at width ≡ read_columns width s at width
    clear = read-fill_loop-elsewhere

    s1 : List ℕ
    s1 = fill_loop 14 s 5 14 st.total_send

    s2 : List ℕ
    s2 = fill_loop 9 s1 22 9 st.speed_send

    s3 : List ℕ
    s3 = fill_loop 14 s2 42 14 st.total_recv

    l1 : length s1 ≡ length s
    l1 = length-fill_loop 14 s 5 14 st.total_send

    l2 : length s2 ≡ length s
    l2 = length-fill_loop 9 s1 22 9 st.speed_send ∙ l1

    l3 : length s3 ≡ length s
    l3 = length-fill_loop 14 s2 42 14 st.total_recv ∙ l2
