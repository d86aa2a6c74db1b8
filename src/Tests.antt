-- ===== src/Tests.antt =====
-- Runs at concrete inputs, and the theorems at inputs that meet their hypotheses.
mod Md5Runs
mod CryptRuns
mod ServerRuns
mod StartRuns
mod OldRuns
mod ThreadRuns
mod RelayRuns
mod NetRuns
mod WindowsRuns
