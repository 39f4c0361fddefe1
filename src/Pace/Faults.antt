-- ===== src/Pace/Faults.antt =====
-- The calls of `Q_UNREACHABLE` and the null pointers that the states of src/core/states can meet.
pub mod Sound
pub mod States
pub mod Runs
