-- ===== src/Llm.antt =====
-- The language-model service, llm/.
pub mod Chunker
pub mod Config
pub mod Models
pub mod Personality
pub mod Ollama
pub mod Chat
pub mod Lines
pub mod Engines
mod Tests
