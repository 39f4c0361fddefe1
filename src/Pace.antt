-- ===== src/Pace.antt =====
-- src/core/states: the state machine that establishes the PACE channel to the card, and the
-- workflow context that its states share.
pub mod Context
pub mod States
pub mod Establish
pub mod Reader
pub mod Machine
pub mod Events
pub mod Invariant
pub mod Passwords
pub mod Faults
pub mod Channel
pub mod Killed
