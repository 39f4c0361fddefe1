-- ===== src/Pace/Killed.antt =====
-- A killed workflow: WorkflowContext::killWorkflow and the states of src/core/states that it still
-- enters.
pub mod Rank
pub mod Settled
pub mod Waiting
pub mod Ends
