-- ===== src/Kernel.antt =====
-- The kernel, packages/autodub-core/src/autodub_core.
pub mod Isolation
pub mod Aigc
pub mod Subtitles
pub mod Mux
pub mod Ingest
pub mod Voices
pub mod Timeline
pub mod Artifacts
pub mod Align
pub mod Tts
pub mod Prepare
pub mod Diarize
pub mod Translate
