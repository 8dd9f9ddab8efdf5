-- ===== src/Sip.antt =====
-- sip/src/aipanel_sip/: the SIP bridge.
pub mod Frame
pub mod Bridge
pub mod Headers
pub mod Calls
pub mod Accounts
