-- ===== src/SignedMut.antt =====
-- internal/signedmut: envelopes signed by a pinned user key. `Json` has the value trees, `Jcs` their
-- canonical form, `Envelope` the wire types, `Verify` the verifier; the proofs are in `Safe`, `Integers`,
-- `Sound`, `Kept`, `Replay` and `Wire`.
pub mod Json
pub mod Jcs
pub mod Envelope
pub mod Verify
pub mod Safe
pub mod Integers
pub mod Sound
pub mod Kept
pub mod Replay
pub mod UserKeys
pub mod Wire
mod Tests
