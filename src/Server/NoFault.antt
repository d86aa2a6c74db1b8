-- ===== src/Server/NoFault.antt =====
-- The select loop does not fault while its clock runs and its log opens.
use s_vpn.Common.{
  ℕ, ◌+◌, ◌≤◌, ◌<◌, ◌≡◌, ◌≢◌, refl, sym, arith, List, [], ◌∷◌, length, byte_at, ◌==◌, if◌then◌else◌,
  Bool-cases, inl, inr, ltb, ◌||◌, Bool, true, false, Option, none, some,
}
use s_vpn.Common.Int.{ℤ, pos, negsuc, ltb_ℤ}
use s_vpn.Common.Control.{
  go_on, fault, ◌>>=◌, Succeeds, Succeeds-emit, Succeeds-bind, Succeeds-then_round,
}
use mathlib.Core.Path.{subst}
use s_vpn.Crypt.{decrypt, encrypt}
use s_vpn.Md5.{copy}
use s_vpn.Server.Status.{Globals, Output, output_info}
use s_vpn.Server.Loop.{
  buffer_len, ClientNode, Loop, Selected, interrupted, failed, ready, Round, Effect, Outcome,
  client_at, is_source, deliver, count_send, count_recv, relocate, moved_message, accept,
  from_client, sock_part, after_send, to_client, tun_part, update_time, dispatch, round, serve,
  enter_loop,
}
use s_vpn.Server.Accept.{globals-relocate}
use s_vpn.Server.Clock.{
  int_span, IsPast, IsTicking, IsIdle, IsTicking-IsIdle, output_info-Runs, output_info-IsFresh,
}

-- The part ends without a fault, and where it has a state, its globals have the property.
abbrev Runs : (Globals → Type 0) → Outcome → Type 0
Runs P o = Succeeds (λ s. P s.globals) o

sent_few :
    (z : ℤ)
    → ltb_ℤ (pos 0) z ≡ true
    → ltb_ℤ (pos buffer_len) z ≡ false
    → (k : ℕ) × (z ≡ pos k) × (k ≤ 4096)
sent_few (pos k) sent small = (k, refl, ground arith)
sent_few (negsuc k) sent small = absurd (ground arith)

module _ (start n : ℕ) (r : Round) (opens : r.opens ≡ true) (span : n < start + int_span) where
  log_opens : (b : Bool) → (b || r.opens) ≡ true
  log_opens true = refl
  log_opens false = opens

  deliver-Runs :
      (s : Loop) (len : ℕ) (g : Globals)
      → g.stat.ts_current ≡ pos n
      → IsPast start n g
      → Runs (IsTicking start n) (deliver s len (output_info r.opens g))
  unfolding deliver
  deliver-Runs s len g current past =
      let (g', os, e, ticking) =
        output_info-Runs start n g current past span r.opens (log_opens g.frec) in
      rw (e) ticking

  module _ (s : Loop) (current : s.globals.stat.ts_current ≡ pos n)
      (past : IsPast start n s.globals) where
    past-IsTicking : IsTicking start n s.globals
    past-IsTicking = record { current = current; last = inl past }

    accept-Runs :
        (len uid : ℕ) (node : ClientNode) → Runs (IsTicking start n) (accept r s len uid node)
    unfolding accept
    accept-Runs len uid node =
        Succeeds-emit (λ s. IsTicking start n s.globals) (moved_message s uid node) _
          (rw (globals-relocate s uid node)
            (deliver-Runs (relocate s uid node) len (count_send len s.globals) current past))

  from_client-Runs :
      (s : Loop) (len uid : ℕ) (node : Option ClientNode)
      → s.globals.stat.ts_current ≡ pos n
      → IsPast start n s.globals
      → Runs (IsTicking start n) (from_client r s len uid node)
  unfolding from_client
  from_client-Runs s len uid none current past = past-IsTicking s current past
  from_client-Runs s len uid (some node) current past =
      let s' : Loop = record s { buffer = decrypt node.table s.tmp_buffer s.buffer len } in
      elim (Bool-cases (is_source s'.buffer s.server.local_addr uid)) [
        | inl ok ↦ rw (ok) (accept-Runs s' current past len uid node)
        | inr bad ↦ rw (bad) (past-IsTicking s current past)
      ]

  sock_part-Runs :
      (s : Loop) (received : Option (List ℕ × List ℕ))
      → s.globals.stat.ts_current ≡ pos n
      → IsPast start n s.globals
      → Runs (IsTicking start n) (sock_part r s received)
  unfolding sock_part
  sock_part-Runs s none current past = past-IsTicking s current past
  sock_part-Runs s (some (bytes, from)) current past =
      let len = length bytes in
      let s' : Loop = record s { tmp_buffer = copy len s.tmp_buffer 0 bytes 0; addr = from } in
      let uid = byte_at s'.tmp_buffer 0 in
      elim (Bool-cases (len == 0 || ltb buffer_len len)) [
        | inl bad ↦ rw (bad) (past-IsTicking s current past)
        | inr fits ↦ rw (fits) (from_client-Runs s' len uid (client_at s'.server uid) current past)
      ]

  module _ (le : start ≤ n) (small : ltb_ℤ (pos buffer_len) r.sent ≡ false) where
    abbrev Reported : Globals → Type 0
    Reported g =
        (g' : Globals) × (os : List Output) × (output_info r.opens g ≡ some (g', os))
        × IsIdle start n g'

    reported :
        (g : Globals) → IsTicking start n g → (k : ℕ) → k ≤ 4096 → Reported (count_recv (pos k) g)
    reported g ticking k few = elim ticking.last [
      | inl past ↦
          let (g', os, e, ticks) =
            output_info-Runs start n (count_recv (pos k) g) ticking.current past span r.opens
              (log_opens g.frec) in
          (g', os, e, IsTicking-IsIdle start n g' le ticks)
      | inr fresh ↦ (
        count_recv (pos k) g,
        [],
        output_info-IsFresh n k r.opens g ticking.current fresh few,
        (n, fresh.0, le, omega arith),
      )
    ]

    after_send-Runs :
        (s : Loop) (uid : ℕ) (sending : Effect)
        → IsTicking start n s.globals
        → Runs (IsIdle start n) (after_send r s uid sending)
    unfolding after_send
    after_send-Runs s uid sending ticking = elim (Bool-cases (ltb_ℤ (pos 0) r.sent)) [
      | inl sent ↦
          let (k, e, few) = sent_few r.sent sent small in
          let (g', os, e', idle) =
            subst (λ z. Reported (count_recv z s.globals)) (sym e)
              (reported s.globals ticking k few) in
          rw (sent, e') idle
      | inr not_sent ↦ rw (not_sent) (IsTicking-IsIdle start n s.globals le ticking)
    ]

    to_client-Runs :
        (s : Loop) (len uid : ℕ) (node : Option ClientNode)
        → IsTicking start n s.globals
        → Runs (IsIdle start n) (to_client r s len uid node)
    unfolding to_client
    to_client-Runs s len uid none ticking = IsTicking-IsIdle start n s.globals le ticking
    to_client-Runs s len uid (some node) ticking =
        after_send-Runs (record s { buffer = encrypt node.table s.tmp_buffer s.buffer len }) uid _
          ticking

    tun_part-Runs :
        (s : Loop) (read : Option (List ℕ))
        → IsTicking start n s.globals
        → Runs (IsIdle start n) (tun_part r s read)
    unfolding tun_part
    tun_part-Runs s none ticking = IsTicking-IsIdle start n s.globals le ticking
    tun_part-Runs s (some bytes) ticking =
        let len = length bytes in
        let s' : Loop = record s { tmp_buffer = copy len s.tmp_buffer 0 bytes 0 } in
        let uid = byte_at s'.tmp_buffer 19 in
        elim (Bool-cases (len == 0 || ltb buffer_len len)) [
          | inl bad ↦ rw (bad) (IsTicking-IsIdle start n s.globals le ticking)
          | inr fits ↦ rw (fits) (to_client-Runs s' len uid (client_at s'.server uid) ticking)
        ]

    then_tun :
        (s : Loop) (tun : Bool) (o : Outcome)
        → Runs (IsTicking start n) o
        → Runs (IsIdle start n) (o >>= λ s'. if tun then tun_part r s' r.tun_read else go_on s' [])
    then_tun s tun o h =
        Succeeds-bind (λ s. IsTicking start n s.globals) (λ s. IsIdle start n s.globals) o _ h
          (λ s. IsTicking-IsIdle start n s.globals le)
          (λ s' ticking. elim (Bool-cases tun) [
            | inl reads ↦ rw (reads) (tun_part-Runs s' r.tun_read ticking)
            | inr silent ↦ rw (silent) (IsTicking-IsIdle start n s'.globals le ticking)
          ])

    dispatch-Runs :
        (s : Loop) (before : ℕ) (selected : Selected)
        → IsIdle start before s.globals
        → before < n
        → r.now ≡ pos n
        → Runs (IsIdle start n) (dispatch r s selected)
    unfolding dispatch
    dispatch-Runs s before interrupted idle later now = tt
    dispatch-Runs s before failed (m, e, from, until) later now = (m, e, from, omega arith)
    dispatch-Runs s before (ready sock tun) (m, e, from, until) later now =
        then_tun s tun _ (elim (Bool-cases sock) [
          | inl has ↦
              rw (has)
                (sock_part-Runs (update_time r.now s) r.received now (m, e, from, omega arith))
          | inr has_not ↦
              rw (has_not) (past-IsTicking (update_time r.now s) now (m, e, from, omega arith))
        ])

-- The rounds come at times that grow, within 2^31 microseconds from `start`; the log can be opened;
-- `sendto` sends no more than the buffer.
abbrev pub Ticks : ℕ → ℕ → List Round → Type 0
Ticks start before [] = Unit
Ticks start before (r ∷ rs) =
    (n : ℕ) × (r.now ≡ pos n)
    × (before < n)
    × (n < start + int_span)
    × (r.opens ≡ true)
    × (ltb_ℤ (pos buffer_len) r.sent ≡ false)
    × Ticks start n rs

serve-Runs :
    (rs : List Round) (start before : ℕ) (s : Loop)
    → start ≤ before
    → IsIdle start before s.globals
    → Ticks start before rs
    → Runs (λ g. Unit) (serve rs s)
unfolding serve round
serve-Runs [] start before s le idle ticks = tt
serve-Runs (r ∷ rs) start before s le idle (n, now, later, span, opens, small, ticks) =
    Succeeds-then_round (λ s. IsIdle start n s.globals) (λ s. Unit) (round r s) _
      (dispatch-Runs start n r opens span (omega arith) small s before r.selected idle later now)
      (λ s' idle'. serve-Runs rs start n s' (omega arith) idle' ticks)

-- Entered at the time `now`, with rounds at growing times within 2^31 microseconds from then, a log
-- that can be opened, and a `sendto` that sends no more than 4096 bytes, the loop runs into undefined
-- behaviour in no sequence of rounds, whatever is received and read.
pub serve-ne-fault :
    (rs : List Round) (now : ℕ) (s : Loop)
    → Ticks now now rs
    → serve rs (enter_loop (pos now) s) ≢ fault
unfolding enter_loop
serve-ne-fault rs now s ticks e = subst (Succeeds (λ s. Unit)) e (
    serve-Runs rs now now (enter_loop (pos now) s) (omega arith)
      (now, refl, omega arith, omega arith) ticks)
