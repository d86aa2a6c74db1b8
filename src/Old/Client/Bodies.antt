-- ===== src/Old/Client/Bodies.antt =====
-- The loops of `svpn_recv_thread` and `svpn_send_thread` of the Linux client
-- (old-code/old/linux/svpn_client.c). A turn is a test of the thread's flag and, if the flag is on,
-- what its system call returns.
use s_vpn.Common.{ℕ, List, [], ◌∷◌}
use s_vpn.Common.Control.{go_on, skip, stop, fault, emit}
use s_vpn.Old.Client.{Loop, Outcome}
use s_vpn.Old.Client.Linux.{Arrival, interrupted, failed, arrived, recv_round, send_round}

pub data Turn : Type 0 where
  off : Turn
  on : Arrival → Turn

-- The next turn, or `return NULL` with the struct as it was.
abbrev pub then_turn : Loop → Outcome → (Loop → Outcome) → Outcome
then_turn s (go_on t es) k = emit es (k t)
then_turn s (skip t es) k = emit es (k t)
then_turn s stop k = go_on s []
then_turn s fault k = fault

-- `while(psc->…_thread_on)` with the body of the thread.
module _ (body : Loop → Arrival → Outcome) where
  unfoldable pub thread : List Turn → Loop → Outcome
  thread [] s = go_on s []
  thread (off ∷ xs) s = go_on s []
  thread (on a ∷ xs) s = then_turn s (body s a) (λ t. thread xs t)

-- `svpn_recv_thread`
unfoldable pub recv_thread : List Turn → Loop → Outcome
unfolding thread recv_round
recv_thread xs s = thread recv_round xs s

-- `svpn_send_thread`
unfoldable pub send_thread : List Turn → Loop → Outcome
unfolding thread send_round
send_thread xs s = thread send_round xs s

-- What the thread's calls bring up to its end.
abbrev pub taken : List Turn → List (List ℕ)
taken [] = []
taken (off ∷ xs) = []
taken (on interrupted ∷ xs) = []
taken (on failed ∷ xs) = taken xs
taken (on (arrived d) ∷ xs) = d ∷ taken xs
