-- ===== src/Voice.antt =====
-- The parts of a phone call that keep state: the sockets opened for it, the closing of its transcript
-- and the turns of the conversation.
pub mod TranscriptDrain
pub mod VoiceTurns
pub mod RealtimeSessions
