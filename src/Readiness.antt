-- ===== src/Readiness.antt =====
-- internal/readiness: the signal that the service of an instance answers.
pub mod Config
pub mod Bounds
pub mod Prober
pub mod Starting
pub mod Flaps
mod Samples
mod Tests
