-- ===== src/Old/Sockets.antt =====
-- The tunnel and the socket of the draft server, old-code/server/svpn_fd.c. What the system calls
-- return is an argument; messages and socket options are left out.
use s_vpn.Common.{◌≡◌, ◌⊎◌, refl, List, [], ◌∷◌, if◌then◌else◌, Bool-cases, inl, inr, true, false}
use s_vpn.Common.Int.{ℤ, pos, negsuc}
use s_vpn.Fd.{FdEvent, opened, closed, is_negative, left_open, eq_ℤ-refl}

-- `svpn_tun_create`, from the results of `open` and `ioctl`: the result and the descriptors.
unfoldable pub draft_tun_create : ℤ → ℤ → ℤ × List FdEvent
draft_tun_create fd err =
    if is_negative fd
    then (fd, [])
    else (if is_negative err then (err, opened fd ∷ closed fd ∷ []) else (fd, opened fd ∷ []))

-- `svpn_socket_create`, from the results of `socket` and `bind`.
unfoldable pub socket_create : ℤ → ℤ → ℤ × List FdEvent
socket_create fd bind_result =
    if is_negative fd
    then (negsuc 0, [])
    else (if is_negative bind_result
        then (negsuc 0, opened fd ∷ closed fd ∷ [])
        else (pos 0, opened fd ∷ []))

-- A negative result leaves nothing open, and another the descriptor.
abbrev pub LeavesOpen : ℤ → ℤ × List FdEvent → Type 0
LeavesOpen fd outcome =
    ((is_negative outcome.0 ≡ true) × (left_open outcome.1 ≡ []))
    ⊎ ((is_negative outcome.0 ≡ false) × (left_open outcome.1 ≡ fd ∷ []))

-- Whatever the system calls return, `svpn_tun_create` and `svpn_socket_create` of the draft server
-- leave nothing open with a negative result, and their descriptor with another.
pub creates-LeavesOpen :
    (tun err sock bind_result : ℤ)
    → LeavesOpen tun (draft_tun_create tun err) × LeavesOpen sock (socket_create sock bind_result)
creates-LeavesOpen tun err sock bind_result = (tunnel, socket)
  where
    tunnel : LeavesOpen tun (draft_tun_create tun err)
    tunnel =
        unfold draft_tun_create in
        elim (Bool-cases (is_negative tun)) [
          | inl bad ↦ rw bad (inl (bad, refl))
          | inr good ↦ elim (Bool-cases (is_negative err)) [
            | inl bad ↦ rw (good, bad) (inl (bad, rw (eq_ℤ-refl tun) refl))
            | inr made ↦ rw (good, made) (inr (good, refl))
          ]
        ]

    socket : LeavesOpen sock (socket_create sock bind_result)
    socket =
        unfold socket_create in
        elim (Bool-cases (is_negative sock)) [
          | inl bad ↦ rw bad (inl (refl, refl))
          | inr good ↦ elim (Bool-cases (is_negative bind_result)) [
            | inl bad ↦ rw (good, bad) (inl (refl, rw (eq_ℤ-refl sock) refl))
            | inr made ↦ rw (good, made) (inr (refl, refl))
          ]
        ]
