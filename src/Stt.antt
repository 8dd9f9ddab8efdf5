-- ===== src/Stt.antt =====
-- stt-server/src/aipanel_stt/: the transcription service.
pub mod Stream
