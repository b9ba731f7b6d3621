-- ===== src/Reconciler.antt =====
-- internal/reconciler/loop.go: the loop that converges the host to the desired state, and the worker
-- that applies one instance at a time beside it.
pub mod Queue
pub mod Goroutines
pub mod Coherent
pub mod Steps
pub mod Exclusive
pub mod Target
pub mod Bound
pub mod Down
pub mod Purged
pub mod System
pub mod Ipc
pub mod Apply
pub mod Observed
pub mod Injected
pub mod Held
mod Samples
mod Tests
