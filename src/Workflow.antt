-- ===== src/Workflow.antt =====
-- The workflow engine.
pub mod Types
pub mod Dag
pub mod Step
pub mod Walk
pub mod Run
pub mod Session
pub mod Planner
mod Tests
