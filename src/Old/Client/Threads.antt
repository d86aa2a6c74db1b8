-- ===== src/Old/Client/Threads.antt =====
-- The threads of old-code/old/linux/svpn_client.c: their start, their stop by a flag and a signal,
-- the wait for them, and `svpn_release`. A thread is known by the point of its loop where it is; of the
-- threads that were started for one field of the struct, it is the last.

use s_vpn.Common.{◌≡◌, List, if◌then◌else◌, Bool, true, false, Option, none, some}
use s_vpn.Common.Int.{ℤ, pos, negsuc}
use s_vpn.Fd.{remove}
use s_vpn.Old.Client.{SvpnClient}

-- Where a thread is: not created; before the test of its flag; past it and before the system call;
-- in the call; with what the call gave it; returned; or returned and waited for.
pub data Point : Type 0 where
  absent testing calling blocked working ended joined : Point

-- The struct behind `psc`, whether it is freed, its threads, and the open descriptors.
pub record Process : Type 0 where
  pub psc : SvpnClient
  pub freed : Bool
  pub recv_thread : Point
  pub send_thread : Point
  pub handle_thread : Point
  pub open_fds : List ℤ

-- `pthread_kill(…, SIGUSR1)`: the call in which the thread is, if it is in one, fails with EINTR, and
-- the thread returns. At other points the handler runs and the thread goes on. `none` is undefined
-- behaviour: the number of no thread.
unfoldable pub disturb : Point → Option Point
disturb absent = none
disturb testing = some testing
disturb calling = some calling
disturb blocked = some ended
disturb working = some working
disturb ended = some ended
disturb joined = none

-- What a call of a function does: it returns a number and leaves a process, it waits, or its behaviour
-- is undefined.
pub data Called : Type 0 where
  gives : ℤ → Option Process → Called
  waits undefined : Called

-- The functions take `psc` with all it stands for; `none` is NULL, for which each returns -1.
abbrev pub on_struct : Option Process → (Process → Called) → Called
on_struct none f = gives (negsuc 0) none
on_struct (some s) f = if s.freed then undefined else f s

unfoldable pub start_recv_thread : Option Process → Called
start_recv_thread psc = on_struct psc (λ s.
    gives (pos 0)
      (some (record s { psc = record s.psc { recv_thread_on = true }; recv_thread = testing })))

unfoldable pub start_send_thread : Option Process → Called
start_send_thread psc = on_struct psc (λ s.
    gives (pos 0)
      (some (record s { psc = record s.psc { send_thread_on = true }; send_thread = testing })))

-- `svpn_start_handle_thread`: this thread has no flag.
unfoldable pub start_handle_thread : Option Process → Called
start_handle_thread psc =
    on_struct psc (λ s. gives (pos 0) (some (record s { handle_thread = testing })))

-- The flag is off, and the signal has the thread here.
abbrev pub recv_stopped : Process → Option Point → Called
recv_stopped s none = undefined
recv_stopped s (some p) =
    gives (pos 0)
      (some (record s { psc = record s.psc { recv_thread_on = false }; recv_thread = p }))

abbrev pub send_stopped : Process → Option Point → Called
send_stopped s none = undefined
send_stopped s (some p) =
    gives (pos 0)
      (some (record s { psc = record s.psc { send_thread_on = false }; send_thread = p }))

unfoldable pub stop_recv_thread : Option Process → Called
unfolding disturb
stop_recv_thread psc = on_struct psc (λ s. recv_stopped s (disturb s.recv_thread))

unfoldable pub stop_send_thread : Option Process → Called
unfolding disturb
stop_send_thread psc = on_struct psc (λ s. send_stopped s (disturb s.send_thread))

-- The next statement, after a call whose result is not read.
abbrev pub then_process : Called → (Process → Called) → Called
then_process (gives z none) f = gives z none
then_process (gives z (some s)) f = f s
then_process waits f = waits
then_process undefined f = undefined

abbrev pub closed_and_freed : Process → Process
closed_and_freed s = record s {
  open_fds = remove s.psc.sock_fd (remove s.psc.tun_fd s.open_fds);
  freed = true;
}

-- `svpn_release`
unfoldable pub release : Option Process → Called
unfolding stop_recv_thread stop_send_thread
release psc = on_struct psc (λ s.
    then_process
      (if s.psc.recv_thread_on then stop_recv_thread (some s) else gives (pos 0) (some s))
      (λ s1.
        then_process
          (if s1.psc.send_thread_on then stop_send_thread (some s1) else gives (pos 0) (some s1))
          (λ s2. gives (pos 0) (some (closed_and_freed s2)))))

-- `pthread_join` of a thread at this point, with the process after it.
unfoldable pub join : Point → Process → Called
join absent t = undefined
join testing t = waits
join calling t = waits
join blocked t = waits
join working t = waits
join ended t = gives (pos 0) (some t)
join joined t = undefined

unfoldable pub wait_recv_thread : Option Process → Called
unfolding join
wait_recv_thread psc = on_struct psc (λ s. join s.recv_thread (record s { recv_thread = joined }))

unfoldable pub wait_send_thread : Option Process → Called
unfolding join
wait_send_thread psc = on_struct psc (λ s. join s.send_thread (record s { send_thread = joined }))

unfoldable pub wait_handle_thread : Option Process → Called
unfolding join
wait_handle_thread psc =
    on_struct psc (λ s. join s.handle_thread (record s { handle_thread = joined }))

-- A move of a thread whose flag is `on`. A signal that comes to the process, such as one from another
-- program, can end the call with EINTR.
pub data Move (on : Bool) : Point → Point → Type 0 where
  test_on : on ≡ true → Move on testing calling
  test_off : on ≡ false → Move on testing ended
  call : Move on calling blocked
  arrive : Move on blocked working
  retry : Move on blocked testing
  interrupt : Move on blocked ended
  finish : Move on working testing

-- A move of one of the three threads; the third has `while(1)`.
pub data Step : Process → Process → Type 0 where
  recv_moves :
      (s : Process) (to : Point)
      → Move s.psc.recv_thread_on s.recv_thread to
      → Step s (record s { recv_thread = to })
  send_moves :
      (s : Process) (to : Point)
      → Move s.psc.send_thread_on s.send_thread to
      → Step s (record s { send_thread = to })
  handle_moves :
      (s : Process) (to : Point)
      → Move true s.handle_thread to
      → Step s (record s { handle_thread = to })

-- Moves one after another.
pub data Reaches : Process → Process → Type 0 where
  here : (s : Process) → Reaches s s
  next : (s t u : Process) → Step s t → Reaches t u → Reaches s u
