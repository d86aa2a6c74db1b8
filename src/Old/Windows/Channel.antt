-- ===== src/Old/Windows/Channel.antt =====
-- The buffer of an overlapped read, as `CommClient` (comm.h) and `TunDriver` (tun.h) of
-- old-code/old/win32/Wtaet have it.
use s_vpn.Common.{ℕ, List, length}
use s_vpn.Md5.{copy}

-- PACKAGE_BUFFER_SIZE
abbrev pub package_buffer_size : ℕ
package_buffer_size = 10000

-- `readState`, `innerBuf` and `innerLength`.
pub record Channel : Type 0 where
  pub read_state : ℕ
  pub inner_buf : List ℕ
  pub inner_length : ℕ

-- `InitRead`, `InitRecv` and `InitRecv2`: no data.
abbrev pub init_channel : Channel → Channel
init_channel ch = record ch { read_state = 0 }

-- The bytes that the system puts into the buffer, with their number.
unfoldable pub arrive : Channel → List ℕ → Channel
arrive ch bytes = record ch {
  inner_buf = copy (length bytes) ch.inner_buf 0 bytes 0;
  inner_length = length bytes;
}
