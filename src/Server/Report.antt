-- ===== src/Server/Report.antt =====
-- When `output_info` reports, when it stays silent, and when it faults.
use s_vpn.Common.{
  ◌≡◌, ◌≢◌, ◌⊎◌, ◌↔◌, refl, arith, List, [], ◌∷◌, Bool-cases, inl, inr, ◌||◌, Bool, true, false,
  Option, none, some,
}
use s_vpn.Common.Int.{is_zero}
use s_vpn.Server.Status.{
  Globals, Output, is_quiet, elapsed, settle, output_info, log_seconds, fill_status, prepend,
  status_line,
}

log_seconds-IsSome :
    (opens : Bool) (g : Globals) → (g.frec || opens) ≡ true → log_seconds opens g ≢ none
unfolding log_seconds
log_seconds-IsSome opens g h e = ground arith

log_seconds-keeps :
    (opens : Bool) (g g' : Globals) (os : List Output)
    → log_seconds opens g ≡ some (g', os)
    → (g'.stat ≡ g.stat) × (g'.fmtstr ≡ g.fmtstr)
unfolding log_seconds
log_seconds-keeps opens g g' os h = ground arith

prepend-eq-none : (o : Output) (r : Option (Globals × List Output)) → prepend o r ≡ none → r ≡ none
prepend-eq-none o none h = refl
prepend-eq-none o (some r) h = cc

-- If the log file is open or opens, `output_info` faults exactly when it has to report and no
-- time, as an `int`, has passed since the last report.
pub output_info-eq-none_iff :
    (opens : Bool) (g : Globals)
    → (g.frec || opens) ≡ true
    → (output_info opens g ≡ none) ↔ ((is_quiet g.stat ≡ false) × (is_zero (elapsed g.stat) ≡ true))
unfolding output_info
output_info-eq-none_iff opens g h = (there, λ e. rw (e.0, e.1))
  where
    stuck :
        (g' : Globals) (o : Output)
        → (g'.frec || opens) ≡ true
        → prepend o (log_seconds opens g') ≡ none
        → ⊥
    stuck g' o ok e = log_seconds-IsSome opens g' ok (prepend-eq-none o _ e)

    there :
        output_info opens g ≡ none → (is_quiet g.stat ≡ false) × (is_zero (elapsed g.stat) ≡ true)
    there e = elim (Bool-cases (is_quiet g.stat)) [
      | inl quiet ↦ absurd (some-ne-none (rw quiet at e))
      | inr busy ↦ elim (Bool-cases (is_zero (elapsed g.stat))) [
        | inl still ↦ (busy, still)
        | inr moved ↦ absurd (stuck _ _ h (rw (busy, moved) at e))
      ]
    ]
      where
        some-ne-none : {x : Globals × List Output} → some x ≡ none → ⊥
        some-ne-none q = cc

pair_parts :
    (g k : Globals) (os ks : List Output)
    → ◌≡◌ {A = Option (Globals × List Output)} (some (k, ks)) (some (g, os))
    → (g ≡ k) × (os ≡ ks)
pair_parts g k os ks e = (cc, cc)

-- A report settles the statistics and prints the line.
abbrev pub IsReport : Globals → Globals → List Output → Type 0
IsReport g g' os =
    (g'.stat ≡ settle g.stat)
    × (g'.fmtstr ≡ fill_status g.fmtstr (settle g.stat))
    × ((more : List Output) × (os ≡ status_line (fill_status g.fmtstr (settle g.stat)) ∷ more))

logged-IsReport :
    (opens : Bool) (g g' : Globals) (os : List Output) (r : Option (Globals × List Output))
    → log_seconds opens
        (record g { stat = settle g.stat; fmtstr = fill_status g.fmtstr (settle g.stat) })
      ≡ r
    → prepend (status_line (fill_status g.fmtstr (settle g.stat))) r ≡ some (g', os)
    → IsReport g g' os
logged-IsReport opens g g' os none e q = cc
logged-IsReport opens g g' os (some (k, ks)) e q =
    let (stat_kept, line_kept) = log_seconds-keeps opens _ k ks e in
    let (same, outputs) = pair_parts g' k os _ q in
    (rw same stat_kept, rw same line_kept, (ks, outputs))

-- Without a fault `output_info` either has no need to report and changes and prints nothing, or
-- it settles the statistics, refills the line and prints it.
pub output_info-cases :
    (opens : Bool) (g g' : Globals) (os : List Output)
    → output_info opens g ≡ some (g', os)
    → ((is_quiet g.stat ≡ true) × (g' ≡ g) × (os ≡ []))
      ⊎ ((is_quiet g.stat ≡ false) × IsReport g g' os)
unfolding output_info
output_info-cases opens g g' os h = elim (Bool-cases (is_quiet g.stat)) [
  | inl quiet ↦
      let (same, nothing) = pair_parts g' g os [] (rw quiet at h) in inl (quiet, same, nothing)
  | inr busy ↦ inr (busy, reported busy)
]
  where
    reported : is_quiet g.stat ≡ false → IsReport g g' os
    reported busy = elim (Bool-cases (is_zero (elapsed g.stat))) [
      | inl still ↦ absurd (none-ne-some (rw (busy, still) at h))
      | inr moved ↦ logged-IsReport opens g g' os _ refl (rw (busy, moved) at h)
    ]
      where
        none-ne-some : {x : Globals × List Output} → none ≡ some x → ⊥
        none-ne-some q = cc
