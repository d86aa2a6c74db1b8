-- ===== src/Fd/Balance.antt =====
-- Calls that close all that they open.
use s_vpn.Common.{◌≡◌, refl, ◌∙◌, ap, List, [], ◌∷◌, ◌++◌}
use s_vpn.Common.Int.{ℤ}
use s_vpn.Fd.{FdEvent, opened, closed, left_open_from, remove, eq_ℤ-refl}

pub left_open_from-append :
    (fds : List ℤ) (es fs : List FdEvent)
    → left_open_from fds (es ++ fs) ≡ left_open_from (left_open_from fds es) fs
left_open_from-append fds [] fs = refl
left_open_from-append fds (opened fd ∷ es) fs = left_open_from-append (fd ∷ fds) es fs
left_open_from-append fds (closed fd ∷ es) fs = left_open_from-append (remove fd fds) es fs

pub remove-first : (fd : ℤ) (fds : List ℤ) → remove fd (fd ∷ fds) ≡ fds
remove-first fd fds = rw (eq_ℤ-refl fd)

-- Every key that is opened is closed.
abbrev pub Balances : List FdEvent → Type 0
Balances es = (fds : List ℤ) → left_open_from fds es ≡ fds

pub Balances-append : (es fs : List FdEvent) → Balances es → Balances fs → Balances (es ++ fs)
Balances-append es fs h h' fds =
    left_open_from-append fds es fs ∙ ap (λ fds. left_open_from fds fs) (h fds) ∙ h' fds

pub Balances-within :
    (fd : ℤ) (es : List FdEvent) → Balances es → Balances (opened fd ∷ es ++ closed fd ∷ [])
Balances-within fd es h fds =
    left_open_from-append (fd ∷ fds) es (closed fd ∷ [])
    ∙ ap (remove fd) (h (fd ∷ fds))
    ∙ remove-first fd fds
