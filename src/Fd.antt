-- ===== src/Fd.antt =====
-- Descriptors that are opened and closed, in their order, and which are left open.
use s_vpn.Common.{◌≡◌, arith, List, [], ◌∷◌, ◌==◌, if◌then◌else◌, Bool, true, false}
use s_vpn.Common.Int.{ℤ, pos, negsuc}
pub mod Balance

pub data FdEvent : Type 0 where
  opened : ℤ → FdEvent
  closed : ℤ → FdEvent

abbrev pub eq_ℤ : ℤ → ℤ → Bool
eq_ℤ (pos a) (pos b) = a == b
eq_ℤ (pos a) (negsuc b) = false
eq_ℤ (negsuc a) (pos b) = false
eq_ℤ (negsuc a) (negsuc b) = a == b

abbrev pub remove : ℤ → List ℤ → List ℤ
remove fd [] = []
remove fd (x ∷ xs) = if eq_ℤ fd x then xs else x ∷ remove fd xs

-- The descriptors that are open after the events, the last opened first.
abbrev pub left_open_from : List ℤ → List FdEvent → List ℤ
left_open_from fds [] = fds
left_open_from fds (opened fd ∷ es) = left_open_from (fd ∷ fds) es
left_open_from fds (closed fd ∷ es) = left_open_from (remove fd fds) es

abbrev pub left_open : List FdEvent → List ℤ
left_open es = left_open_from [] es

pub eq_ℤ-refl : (z : ℤ) → eq_ℤ z z ≡ true
eq_ℤ-refl (pos n) = ground arith
eq_ℤ-refl (negsuc n) = ground arith

abbrev pub is_negative : ℤ → Bool
is_negative (pos n) = false
is_negative (negsuc n) = true
