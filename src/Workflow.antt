-- ===== src/Workflow.antt =====
-- The workflows of src/core/controller, over the PACE machine.
pub mod ChangePin
pub mod TrustedChannel
pub mod Rights
