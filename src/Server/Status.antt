-- ===== src/Server/Status.antt =====
-- The status line of src/server/svpn_server.c: `fillnum`, `fillnum64` and `output_info`.
use s_vpn.Common.{
  ℕ, zero, suc, ◌+◌, ◌-◌, ◌*◌, ◌%◌, List, [], ◌∷◌, set, ◌==◌, if◌then◌else◌, ◌&&◌, ◌||◌, Bool, true,
  Option, none, some,
}
use s_vpn.Common.Int.{ℤ, pos, pos_part, ◌+ℤ◌, ◌-ℤ◌, ◌*ℤ◌, ltb_ℤ, quot_ℤ, rem_ℤ, is_zero, to_int32}

-- The character for a column: a blank once the number is used up, a comma before each group of
-- three digits. For a negative number C's `%` is not positive, and so is added to '0'.
unfoldable pub column_char : ℕ → ℕ → ℤ → ℕ
column_char len lenb num =
    if is_zero num
    then b' '
    else (if (len - lenb) % 4 == 3 then b',' else pos_part (pos b'0' +ℤ rem_ℤ num 10))

unfoldable pub column_rest : ℕ → ℕ → ℤ → ℤ
column_rest len lenb num =
    if is_zero num then num else (if (len - lenb) % 4 == 3 then num else quot_ℤ num (pos 10))

-- `while (lenb > 0)`, where `s` has gone down to column `off + lenb - 1`.
unfoldable pub fill_loop : ℕ → List ℕ → ℕ → ℕ → ℤ → List ℕ
fill_loop zero s off len num = s
fill_loop (suc lenb) s off len num =
    fill_loop lenb (set s (off + lenb) (column_char len (suc lenb) num)) off len
      (column_rest len (suc lenb) num)

-- `fillnum(s + off, len, num)` with an `int`, and `fillnum64` with a `long long`.
unfoldable pub fillnum : List ℕ → ℕ → ℕ → ℤ → List ℕ
fillnum s off len num = fill_loop len s off len num

unfoldable pub fillnum64 : List ℕ → ℕ → ℕ → ℤ → List ℕ
fillnum64 s off len num = fill_loop len s off len num

-- `struct tstat`
pub record Tstat : Type 0 where
  pub total_send : ℤ
  pub total_recv : ℤ
  pub last_send : ℤ
  pub last_recv : ℤ
  pub total_pkgsend : ℤ
  pub total_pkgrecv : ℤ
  pub last_pkgsend : ℤ
  pub last_pkgrecv : ℤ
  pub speed_send : ℤ
  pub speed_recv : ℤ
  pub ts_last : ℤ
  pub ts_current : ℤ

-- The file's global variables; `frec` is whether the log file is open.
pub record Globals : Type 0 where
  pub stat : Tstat
  pub tl_last : ℤ
  pub frec : Bool
  pub fmtstr : List ℕ

abbrev pub opt_th : ℤ
opt_th = pos (1024 * 1024)

abbrev pub tim_th : ℤ
tim_th = pos (1000000 * 2)

-- What `output_info` prints: the status line, and a log record with the time in seconds.
pub data Output : Type 0 where
  status_line : List ℕ → Output
  log_record : ℤ → ℤ → Output

-- The test that lets `output_info` return at once.
abbrev pub is_quiet : Tstat → Bool
is_quiet s =
    ltb_ℤ (s.total_send -ℤ s.last_send) opt_th
    && ltb_ℤ (s.total_recv -ℤ s.last_recv) opt_th
    && ltb_ℤ (s.ts_current -ℤ s.ts_last) tim_th

abbrev pub elapsed : Tstat → ℤ
elapsed s = to_int32 (s.ts_current -ℤ s.ts_last)

abbrev pub rate : ℤ → ℤ → ℤ → ℤ
rate total last tval = to_int32 (quot_ℤ ((total -ℤ last) *ℤ pos 1000000) tval)

-- The line with the four numbers filled in.
unfoldable pub fill_status : List ℕ → Tstat → List ℕ
fill_status s st =
    let s = fillnum64 s 5 14 st.total_send in
    let s = fillnum s 22 9 st.speed_send in
    let s = fillnum64 s 42 14 st.total_recv in fillnum s 59 9 st.speed_recv

-- The last `if` of `output_info`, in every other second: a log record, unless it is the first
-- time. `opens` is whether `fopen` succeeds. `none` is `fprintf` to a null pointer.
unfoldable pub log_seconds : Bool → Globals → Option (Globals × List Output)
log_seconds opens g =
    if is_zero (rem_ℤ (quot_ℤ g.stat.ts_current (pos 1000000)) 2)
    then (if is_zero g.tl_last
        then some (record g { tl_last = g.stat.last_recv }, [])
        else (if g.frec || opens
            then some (
              record g { tl_last = g.stat.last_recv; frec = true },
              log_record (quot_ℤ g.stat.ts_current (pos 1000000)) (g.stat.last_recv -ℤ g.tl_last)
                  ∷ [],
            )
            else none))
    else some (g, [])

-- The statistics after a status line.
unfoldable pub settle : Tstat → Tstat
settle s = record s {
  speed_send = rate s.total_send s.last_send (elapsed s);
  speed_recv = rate s.total_recv s.last_recv (elapsed s);
  ts_last = s.ts_current;
  last_send = s.total_send;
  last_recv = s.total_recv;
  last_pkgsend = s.total_pkgsend;
  last_pkgrecv = s.total_pkgrecv;
}

abbrev pub prepend : Output → Option (Globals × List Output) → Option (Globals × List Output)
prepend o none = none
prepend o (some (g, os)) = some (g, o ∷ os)

-- `output_info`. `none` is a fault: a division by zero, or a null `FILE`.
unfoldable pub output_info : Bool → Globals → Option (Globals × List Output)
output_info opens g =
    if is_quiet g.stat
    then some (g, [])
    else (if is_zero (elapsed g.stat)
        then none
        else (let stat = settle g.stat in
            let line = fill_status g.fmtstr stat in
            prepend (status_line line)
              (log_seconds opens (record g { stat = stat; fmtstr = line }))))
