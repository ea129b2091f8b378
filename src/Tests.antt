-- ===== src/Tests.antt =====
-- Runs of the definitions on small plans, and the theorems applied to them.
pub mod Plans
pub mod Pointers
pub mod Transfers
pub mod Numberings
pub mod Samplings
pub mod Selections
pub mod Choices
pub mod Batches
pub mod Runs
pub mod Evaluations
pub mod Steps
