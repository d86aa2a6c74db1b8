-- ===== src/Client/Counts.antt =====
-- The two counts of bytes of the client's select loop, which are of type `int`.
use s_vpn.Common.{
  ℕ, ◌+◌, ◌*◌, ◌^◌, ◌≤◌, ◌<◌, ◌≡◌, arith, List, [], ◌∷◌, length, if◌then◌else◌, byte_at, ◌/◌, ◌==◌,
  Bool-cases, inl, inr, ltb, Bool, true, false, Option, none, some,
}
use s_vpn.Common.Int.{ℤ, pos, ◌+ℤ◌, to_int32}
use s_vpn.Common.Control.{
  go_on, skip, stop, fault, ◌>>=◌, Ensures, Ensures-emit, Ensures-then_round,
}
use s_vpn.Crypt.{CodeTable, decrypt}
use s_vpn.Client.Loop.{
  buffer_len, Loop, Selected, interrupted, failed, ready, Round, Effect, Outcome, tun_part,
  sock_part, dispatch, round, handle_thread,
}
use s_vpn.Client.Relay.{relay}
use s_vpn.Client.Refines.{IsClient, AllFit}
use s_vpn.Client.RefinesLoop.{Refines, handle_thread-Refines}

-- The counts are numbers up to these.
abbrev pub Counted : ℕ → ℕ → Loop → Type 0
Counted m n s = (a b : ℕ) × (s.sendc ≡ pos a) × (s.recvc ≡ pos b) × (a ≤ m) × (b ≤ n)

-- A sum that an `int` holds is stored as it is.
add-stored : (z : ℤ) (a k : ℕ) → z ≡ pos a → a + k < 2 ^ 31 → to_int32 (z +ℤ pos k) ≡ pos (a + k)
add-stored z a k e small = rw e (ground arith)

Ensures-bind_then :
    (P Q : Loop → Type 0) (o : Outcome) (k : Loop → Outcome)
    → Ensures P o
    → ((s : Loop) → P s → Q s)
    → ((s : Loop) → P s → Ensures Q (k s))
    → Ensures Q (o >>= k)
Ensures-bind_then P Q (go_on s es) k h weaken next = Ensures-emit Q es (k s) (next s h)
Ensures-bind_then P Q (skip s es) k h weaken next = weaken s h
Ensures-bind_then P Q stop k h weaken next = tt
Ensures-bind_then P Q fault k h weaken next = tt

module _ (n : ℕ) (room : n + 4096 < 2 ^ 31) where
  tun_part-Counted :
      (r : Round) (s : Loop) (read : Option (List ℕ))
      → Counted n n s
      → Ensures (Counted (n + 4096) n) (tun_part r s read)
  unfolding tun_part
  tun_part-Counted r s none (a, b, e, e', le, le') = (a, b, e, e', omega arith, le')
  tun_part-Counted r s (some bytes) (a, b, e, e', le, le') =
      elim (Bool-cases (ltb buffer_len (length bytes))) [
        | inl long ↦ rw long (a, b, e, e', omega arith, le')
        | inr fits ↦ rw fits (
          a + length bytes,
          b,
          add-stored s.sendc a (length bytes) e (ground arith),
          e',
          ground arith,
          le',
        )
      ]

  sock_part-Counted :
      (s : Loop) (received : Option (List ℕ))
      → Counted (n + 4096) n s
      → Ensures (Counted (n + 4096) (n + 4096)) (sock_part s received)
  unfolding sock_part
  sock_part-Counted s none (a, b, e, e', le, le') = (a, b, e, e', le, omega arith)
  sock_part-Counted s (some bytes) (a, b, e, e', le, le') =
      elim (Bool-cases (ltb buffer_len (length bytes))) [
        | inl long ↦ rw long (a, b, e, e', le, omega arith)
        | inr fits ↦ rw fits (
            either _ _ (byte_at (decrypt s.client.table _ s.buffer (length bytes)) 0 / 2 ^ 4 == 4) (
              a,
              b + length bytes,
              e,
              add-stored s.recvc b (length bytes) e' (ground arith),
              le,
              ground arith,
            ))
      ]
    where
      either :
          (s' : Loop) (es : List Effect) (v4 : Bool)
          → Counted (n + 4096) (n + 4096) s'
          → Ensures (Counted (n + 4096) (n + 4096)) (if v4 then go_on s' es else skip s' [])
      either s' es true h = h
      either s' es false h = h

  sock_if-Counted :
      (sock : Bool) (r : Round) (s : Loop)
      → Counted (n + 4096) n s
      → Ensures
          (Counted (n + 4096) (n + 4096))
          (if sock then sock_part s r.received else go_on s [])
  sock_if-Counted true r s h = sock_part-Counted s r.received h
  sock_if-Counted false r s (a, b, e, e', le, le') = (a, b, e, e', le, omega arith)

  dispatch-Counted :
      (r : Round) (s : Loop) (sel : Selected)
      → Counted n n s
      → Ensures (Counted (n + 4096) (n + 4096)) (dispatch r s sel)
  unfolding dispatch
  dispatch-Counted r s interrupted h = tt
  dispatch-Counted r s failed (a, b, e, e', le, le') = (a, b, e, e', omega arith, omega arith)
  dispatch-Counted r s (ready tun sock) h =
      Ensures-bind_then (Counted (n + 4096) n) (Counted (n + 4096) (n + 4096)) _ _ (first tun h)
        (λ t (a, b, e, e', le, le'). (a, b, e, e', le, omega arith))
        (λ t h'. sock_if-Counted sock r t h')
    where
      first :
          (tun : Bool)
          → Counted n n s
          → Ensures (Counted (n + 4096) n) (if tun then tun_part r s r.tun_read else go_on s [])
      first true h = tun_part-Counted r s r.tun_read h
      first false (a, b, e, e', le, le') = (a, b, e, e', omega arith, le')

-- Where a loop's rounds are few, the counts grow by at most 4096 in each.
handle_thread-Counted :
    (rs : List Round) (n m : ℕ) (s : Loop)
    → n + 4096 * length rs ≤ m
    → m < 2 ^ 31
    → Counted n n s
    → Ensures (Counted m m) (handle_thread rs s)
unfolding handle_thread round
handle_thread-Counted [] n m s le small (a, b, e, e', small_a, small_b) =
    (a, b, e, e', omega arith, omega arith)
handle_thread-Counted (r ∷ rs) n m s le small h =
    Ensures-then_round (Counted (n + 4096) (n + 4096)) (Counted m m) (round r s) _
      (dispatch-Counted n (omega arith) r s r.selected h)
      (λ t h'. handle_thread-Counted rs (n + 4096) m t (omega arith) small h')

-- Over fewer than 2^31 / 4096 rounds from counts of 0, with arrays of 4096 bytes, packets of at most
-- 4096 bytes and datagrams of 1 to 4096 bytes, the client's loop does what the relay does: it returns
-- just where the relay ends, at a round whose `select` was interrupted, and else the packets that it
-- sends and writes, in their order, are the relay's, with its table and its server as before; and
-- neither count of bytes has overflowed, as each is at most 4096 for each round.
pub handle_thread-Relays :
    (ct : CodeTable) (server_addr : List ℕ) (rs : List Round) (s : Loop)
    → IsClient ct server_addr s
    → AllFit rs
    → s.sendc ≡ pos 0
    → s.recvc ≡ pos 0
    → 4096 * length rs < 2 ^ 31
    → Refines ct server_addr (handle_thread rs s) (relay ct server_addr rs)
      × Ensures (Counted (4096 * length rs) (4096 * length rs)) (handle_thread rs s)
handle_thread-Relays ct server_addr rs s c fit none_sent none_received few = (
  handle_thread-Refines ct server_addr rs s c fit,
  handle_thread-Counted rs 0 (4096 * length rs) s (omega arith) few
      (0, 0, none_sent, none_received, omega arith, omega arith),
)
