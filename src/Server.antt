-- ===== src/Server.antt =====
-- src/server: the status line, the select loop, and the start of the server.
pub mod Status
pub mod StatusLaws
pub mod Report
pub mod Loop
pub mod Keeps
pub mod Invariant
pub mod Accept
pub mod Users
pub mod UsersLaws
pub mod UserTables
pub mod UserLines
pub mod Start
pub mod StartLaws
pub mod SettingsLaws
pub mod MainServes
pub mod Relay
pub mod Refines
pub mod RefinesParts
pub mod RefinesLoop
pub mod Clock
pub mod NoFault
pub mod Relays
