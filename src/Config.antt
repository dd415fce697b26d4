-- ===== src/Config.antt =====
-- internal/config: the configuration and its loading.
pub mod Samples
pub mod Types
pub mod Durations
pub mod Defaults
pub mod Validate
pub mod Load
pub mod Reload
pub mod Watch
mod Tests
