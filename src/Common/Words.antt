-- ===== src/Common/Words.antt =====
-- Casts to the unsigned widths of C.
use Prim.Native.Nat.{ℕ, ◌%◌, ◌^◌}

abbrev pub u8 : ℕ → ℕ
u8 n = n % 256

abbrev pub u16 : ℕ → ℕ
u16 n = n % 65536

abbrev pub u32 : ℕ → ℕ
u32 n = n % 2 ^ 32
