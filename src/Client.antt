-- ===== src/Client.antt =====
-- src/client: the select loop and the start of the client.
pub mod Loop
pub mod Start
pub mod StartLaws
pub mod Relay
pub mod Refines
pub mod RefinesParts
pub mod RefinesLoop
pub mod Counts
