-- ===== src/Old/Client.antt =====
-- The clients of old-code/old/linux and old-code/old/osx: the struct, and the rounds of
-- `svpn_handle_thread`. What the system calls of a round return is a value of `Round`.
use s_vpn.Common.{ℕ, ◌+◌, List, [], ◌∷◌, if◌then◌else◌, Bool, Option}
use s_vpn.Common.Int.{ℤ, pos, ◌+ℤ◌, to_int32}
use s_vpn.Common.Control.{Control, go_on, skip, stop, ◌>>=◌, then_round}
use s_vpn.Crypt.{CodeTable}
pub mod Linux
pub mod Osx
pub mod Whole
pub mod Relay
pub mod OsxWhole
pub mod Refines
pub mod RefinesBoth
pub mod Packets
pub mod Start
pub mod StartLaws
pub mod Main
pub mod MainLaws
pub mod Threads
pub mod ThreadsLaws
pub mod Bodies
pub mod BodiesLaws

-- BUFFER_LEN
abbrev pub buffer_len : ℕ
buffer_len = 4096

-- `struct svpn_client`: what the threads use of it.
pub record SvpnClient : Type 0 where
  pub sock_fd : ℤ
  pub server_addr : List ℕ
  pub tun_fd : ℤ
  pub recv_thread_on : Bool
  pub send_thread_on : Bool
  pub table : CodeTable

-- The struct and a thread's local variables.
pub record Loop : Type 0 where
  pub client : SvpnClient
  pub buffer : List ℕ
  pub tmp_buffer : List ℕ
  pub recvc : ℤ
  pub sendc : ℤ

pub data Selected : Type 0 where
  interrupted failed : Selected
  ready : Bool → Bool → Selected

-- What `select`, with the tunnel first, `read` and `recvfrom` return.
pub record Round : Type 0 where
  pub selected : Selected
  pub tun_read : Option (List ℕ)
  pub received : Option (List ℕ)

pub data Effect : Type 0 where
  write_tun : List ℕ → Effect
  send_to : List ℕ → List ℕ → Effect

abbrev pub Outcome : Type 0
Outcome = Control Loop Effect

abbrev pub count_send : Loop → Loop
count_send s = record s { sendc = to_int32 (s.sendc +ℤ pos 1) }

abbrev pub count_recv : Loop → Loop
count_recv s = record s { recvc = to_int32 (s.recvc +ℤ pos 1) }

-- The body of `while(1)`, with the parts of the platform.
module _ (tun_part sock_part : Loop → Option (List ℕ) → Outcome) where
  unfoldable pub dispatch : Round → Loop → Selected → Outcome
  dispatch r s interrupted = stop
  dispatch r s failed = skip s []
  dispatch r s (ready tun sock) = (if tun then tun_part s r.tun_read else go_on s []) >>= λ s'.
      if sock then sock_part s' r.received else go_on s' []

  -- The rounds of the loop one after another, up to a `return`.
  unfoldable pub handle_thread : List Round → Loop → Outcome
  unfolding dispatch
  handle_thread [] s = go_on s []
  handle_thread (r ∷ rs) s = then_round (dispatch r s r.selected) (λ s'. handle_thread rs s')
