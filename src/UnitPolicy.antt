-- ===== src/UnitPolicy.antt =====
-- internal/unitpolicy/policy.go: the policy that the root helper enforces on a staged systemd unit.
-- `Rules` has the values that a directive may carry, `Scan` the validator, `Directives` the reading
-- of a unit as a list of directives; the proofs are in the other children.
pub mod Rules
pub mod Scan
pub mod Directives
pub mod Accepted
pub mod Hardened
pub mod Confined
mod Tests
