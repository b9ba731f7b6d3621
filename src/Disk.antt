-- ===== src/Disk.antt =====
-- internal/diskcheck: the check for free space before an image is pulled.
pub mod Check
pub mod Enough
mod Tests
