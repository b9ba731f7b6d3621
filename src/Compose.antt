-- ===== src/Compose.antt =====
-- internal/runtime/compose: the allowlist for compose files that a user supplies.
pub mod Yaml
pub mod Allowlist
pub mod Confined
pub mod Accepted
mod Tests
