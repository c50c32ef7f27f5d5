-- ===== src/Workflow/Session.antt =====
-- Autonomous sessions (src/services/workflow/session.rs, escalation.rs and the session part of
-- crud.rs).
pub mod Types
pub mod Stored
pub mod Reload
pub mod World
pub mod Escalation
pub mod Planning
pub mod Execution
pub mod Drive
pub mod After
pub mod Relation
pub mod Outcomes
pub mod Rounds
pub mod Loop
pub mod Passes
pub mod Invariant
pub mod Limits
pub mod Answers
pub mod Next
pub mod Ends
pub mod Failing
pub mod Pruned
pub mod Recovery
mod Tests
