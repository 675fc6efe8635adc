-- ===== src/Scripts.antt =====
-- scripts: the tools of the ground station that talk to the card.
pub mod PingLoop
pub mod CmdShell
