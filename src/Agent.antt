-- ===== src/Agent.antt =====
-- workers/src/aipanel_worker/: what the agent says and does on a call.
pub mod BargeIn
pub mod Tools
pub mod Conversation
pub mod AudioOut
pub mod Recorder
pub mod Transcripts
pub mod Session
pub mod Jobs
mod Tests
