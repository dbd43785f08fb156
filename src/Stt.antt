-- ===== src/Stt.antt =====
-- The speech-to-text service, stt/.
pub mod Config
pub mod Models
pub mod Samples
pub mod Audio
pub mod Whisper
pub mod Engines
pub mod Listing
pub mod Servicer
pub mod Contract
pub mod Socket
pub mod Upload
pub mod Startup
mod Tests
