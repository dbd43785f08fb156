-- ===== src/Tts.antt =====
-- The text-to-speech service, tts/.
pub mod Config
pub mod Models
pub mod Bridge
pub mod Markdown
pub mod Service
pub mod Relay
pub mod Piper
pub mod Engines
pub mod Contract
pub mod Listing
pub mod Sinks
pub mod Socket
mod Tests
