-- ===== src/Pace/Passwords.antt =====
-- The passwords in the workflow context and the machine of src/core/states/CompositeStatePace.cpp.
pub mod Cleared
pub mod States
pub mod Refused
