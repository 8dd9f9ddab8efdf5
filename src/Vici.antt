-- ===== src/Vici.antt =====
-- The ViciDial session manager, session-mgr/src/aipanel_vici.
pub mod Model
mod Samples
pub mod Adapter
pub mod Worker
pub mod Supervisor
pub mod Api
