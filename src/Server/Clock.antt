-- ===== src/Server/Clock.antt =====
-- The time of the status line: the division in `output_info` is by no zero while the clock runs.
use s_vpn.Common.{
  ℕ, ◌+◌, ◌-◌, ◌≤◌, ◌<◌, ◌≡◌, ◌⊎◌, sym, ◌∙◌, ap, arith, List, [], Option-cases, inl, inr, ◌||◌,
  Bool, true, false, some,
}
use s_vpn.Common.Int.{ℤ, pos, negsuc, ◌+ℤ◌, ◌-ℤ◌, ltb_ℤ, is_zero, to_int32}
use s_vpn.Server.Status.{Globals, Output, is_quiet, elapsed, settle, output_info, opt_th, tim_th}
use s_vpn.Server.Loop.{count_recv}
use s_vpn.Server.Report.{IsReport, output_info-eq-none_iff, output_info-cases}

-- 2^31 microseconds, for which the time fits an `int`.
abbrev pub int_span : ℕ
int_span = 2147483648

-- The last report was before the time `n`, within the span from `start`.
abbrev pub IsPast : ℕ → ℕ → Globals → Type 0
IsPast start n g = (m : ℕ) × (g.stat.ts_last ≡ pos m) × (start ≤ m) × (m < n)

-- The last report was just now, and nothing is counted since.
abbrev pub IsFresh : ℕ → Globals → Type 0
IsFresh n g =
    (g.stat.ts_last ≡ pos n)
    × (g.stat.last_send ≡ g.stat.total_send)
    × (g.stat.last_recv ≡ g.stat.total_recv)

-- The statistics within a round at the time `n`, and between two rounds.
pub record IsTicking (start n : ℕ) (g : Globals) : Type 0 where
  pub current : g.stat.ts_current ≡ pos n
  pub last : IsPast start n g ⊎ IsFresh n g

abbrev pub IsIdle : ℕ → ℕ → Globals → Type 0
IsIdle start n g = (m : ℕ) × (g.stat.ts_last ≡ pos m) × (start ≤ m) × (m ≤ n)

pub IsTicking-IsIdle :
    (start n : ℕ) (g : Globals) → start ≤ n → IsTicking start n g → IsIdle start n g
IsTicking-IsIdle start n g le h = elim h.last [
  | inl (m, e, from, until) ↦ (m, e, from, omega arith)
  | inr (e, sends, recvs) ↦ (n, e, le, omega arith)
]

elapsed_positive :
    (m n : ℕ) → m < n → n - m < int_span → is_zero (to_int32 (pos n -ℤ pos m)) ≡ false
elapsed_positive m n h span = ground arith

module _ (start n : ℕ) (g : Globals) (current : g.stat.ts_current ≡ pos n) (past : IsPast start n g)
    (span : n < start + int_span) where
  elapsed-nonzero : is_zero (elapsed g.stat) ≡ false
  elapsed-nonzero =
      let (m, e, from, until) = past in rw (current, e) (elapsed_positive m n until (omega arith))

  settled-IsTicking : (g' : Globals) → g'.stat ≡ settle g.stat → IsTicking start n g'
  unfolding settle
  settled-IsTicking g' same = record {
    current = ap (λ s. s.ts_current) same ∙ current;
    last = inr (
      ap (λ s. s.ts_last) same ∙ current,
      ap (λ s. s.last_send) same ∙ sym (ap (λ s. s.total_send) same),
      ap (λ s. s.last_recv) same ∙ sym (ap (λ s. s.total_recv) same),
    );
  }

  -- A report before which time has passed is made.
  pub output_info-Runs :
      (opens : Bool)
      → (g.frec || opens) ≡ true
      → (g' : Globals) × (os : List Output) × (output_info opens g ≡ some (g', os))
        × IsTicking start n g'
  output_info-Runs opens ok = elim (Option-cases (output_info opens g)) [
    | inl none_left ↦
        let (busy, still) = (output_info-eq-none_iff opens g ok).0 none_left in
        absurd (true-ne-false (sym still ∙ elapsed-nonzero))
    | inr ((g', os), e) ↦ (g', os, e, ticking g' os (output_info-cases opens g g' os e))
  ]
    where
      true-ne-false : true ≡ false → ⊥
      true-ne-false q = cc

      ticking :
          (g' : Globals) (os : List Output)
          → ((is_quiet g.stat ≡ true) × (g' ≡ g) × (os ≡ []))
            ⊎ ((is_quiet g.stat ≡ false) × IsReport g g' os)
          → IsTicking start n g'
      ticking g' os (inl (quiet, same, nothing)) =
          rw (same) (record { current = current; last = inl past })
      ticking g' os (inr (busy, report)) = settled-IsTicking g' report.0

quiet_after : (a : ℤ) (k : ℕ) → k ≤ 4096 → ltb_ℤ ((a +ℤ pos k) -ℤ a) opt_th ≡ true
quiet_after (pos a) k h = ground arith
quiet_after (negsuc a) k h = ground arith

none_since : (a : ℤ) → ltb_ℤ (a -ℤ a) opt_th ≡ true
none_since (pos a) = ground arith
none_since (negsuc a) = ground arith

no_time : (n : ℕ) → ltb_ℤ (pos n -ℤ pos n) tim_th ≡ true
no_time n = ground arith

-- Right after a report, what one packet adds is no reason for another.
pub output_info-IsFresh :
    (n k : ℕ) (opens : Bool) (g : Globals)
    → g.stat.ts_current ≡ pos n
    → IsFresh n g
    → k ≤ 4096
    → output_info opens (count_recv (pos k) g) ≡ some (count_recv (pos k) g, [])
unfolding output_info
output_info-IsFresh n k opens g current (at, sends, recvs) small = rw (
  current,
  at,
  sends,
  recvs,
  none_since g.stat.total_send,
  quiet_after g.stat.total_recv k small,
  no_time n,
)
