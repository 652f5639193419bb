-- ===== src/Providers.antt =====
-- The provider adapters, packages/provider-adapters/src/provider_adapters.
pub mod Ladder
pub mod Circuit
pub mod Select
pub mod Languages
pub mod Chunker
pub mod Asr
pub mod Mt
