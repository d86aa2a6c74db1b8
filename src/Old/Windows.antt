-- ===== src/Old/Windows.antt =====
-- The Windows client, old-code/old/win32/Wtaet.
pub mod Channel
pub mod Comm
pub mod Second
pub mod Tun
pub mod Registry
pub mod Config
pub mod Cycle
pub mod Program
pub mod Gate
pub mod Holds
pub mod Matches
pub mod TunRound
pub mod Rounds
pub mod Laws
pub mod Carries
pub mod RegistryTally
pub mod RegistryLaws
pub mod ProgramLaws
