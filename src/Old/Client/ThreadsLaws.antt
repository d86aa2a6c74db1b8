-- ===== src/Old/Client/ThreadsLaws.antt =====
-- The threads of the older client around `svpn_release` and the stop.
use s_vpn.Common.{◌≡◌, refl, true, false, some}
use s_vpn.Common.Int.{pos}
use s_vpn.Old.Client.Threads.{
  Point, absent, testing, calling, blocked, working, ended, joined, Process, gives, waits, disturb,
  stop_recv_thread, stop_send_thread, closed_and_freed, release, join, wait_recv_thread, call,
  retry, recv_moves, Reaches, here, next,
}

-- Whether a thread can move.
abbrev CanMove : Point → Type 0
CanMove absent = ⊥
CanMove testing = Unit
CanMove calling = Unit
CanMove blocked = Unit
CanMove working = Unit
CanMove ended = ⊥
CanMove joined = ⊥

-- No thread is left that could read the struct.
record IsQuiet (s : Process) : Type 0 where
  recv_over : ¬ CanMove s.recv_thread
  send_over : ¬ CanMove s.send_thread
  handle_over : ¬ CanMove s.handle_thread

-- The struct is there, and both threads with flags have them on.
pub record IsOn (s : Process) : Type 0 where
  pub present : s.freed ≡ false
  pub recv_on : s.psc.recv_thread_on ≡ true
  pub send_on : s.psc.send_thread_on ≡ true

-- What `svpn_release` leaves where the signals have the threads with flags at these points.
abbrev released : Process → Point → Point → Process
released s p q = closed_and_freed (record s {
  psc = record s.psc { recv_thread_on = false; send_thread_on = false };
  recv_thread = p;
  send_thread = q;
})

release-signals :
    (s : Process) (p q : Point)
    → IsOn s
    → disturb s.recv_thread ≡ some p
    → disturb s.send_thread ≡ some q
    → release (some s) ≡ gives (pos 0) (some (released s p q))
unfolding release stop_recv_thread stop_send_thread
release-signals s p q on recv send = rw (on.present, on.recv_on, recv, on.send_on, send) refl

-- If both flags are on, the thread that sends is in its call, and the thread that receives is past the
-- test of its flag but not yet in `recvfrom`, `svpn_release` of a struct that is not freed returns 0 and
-- frees it, and the thread that receives can then go on through its call to the next test of its
-- flag, which is in the freed struct.
pub release-Reaches_freed :
    (s : Process)
    → IsOn s
    → s.recv_thread ≡ calling
    → s.send_thread ≡ blocked
    → (t u : Process) × (release (some s) ≡ gives (pos 0) (some t))
      × Reaches t u
      × (u.freed ≡ true)
      × (u.recv_thread ≡ testing)
release-Reaches_freed s on recv send = (
  released s calling ended,
  record (released s calling ended) { recv_thread = testing },
  release-signals s calling ended on (rw recv calling_stays) (rw send blocked_ends),
  next _ _ _ (recv_moves (released s calling ended) blocked call)
      (next _ _ _ (recv_moves (released s blocked ended) testing retry) (here _)),
  refl,
  refl,
)
  where
    calling_stays : disturb calling ≡ some calling
    calling_stays = unfold disturb in refl

    blocked_ends : disturb blocked ≡ some ended
    blocked_ends = unfold disturb in refl

-- If the thread that receives is past the test of its flag but not yet in `recvfrom`,
-- `svpn_stop_recv_thread` of a struct that is not freed returns 0, and the thread can go on into the
-- call with the signal spent, where `svpn_wait_recv_thread` waits for it.
pub stop_recv_thread-Reaches_wait :
    (s : Process)
    → s.freed ≡ false
    → s.recv_thread ≡ calling
    → (t u : Process) × (stop_recv_thread (some s) ≡ gives (pos 0) (some t))
      × Reaches t u
      × (u.psc.recv_thread_on ≡ false)
      × (wait_recv_thread (some u) ≡ waits)
unfolding stop_recv_thread wait_recv_thread join disturb
stop_recv_thread-Reaches_wait s present e =
    let t = record s { psc = record s.psc { recv_thread_on = false }; recv_thread = calling } in
    (
      t,
      record t { recv_thread = blocked },
      rw (present, e) refl,
      next _ _ _ (recv_moves t blocked call) (here _),
      refl,
      rw present refl,
    )
