-- ===== src/Execution.antt =====
-- app/execution: the checks in front of a real submission, and the submission.
pub mod Models
pub mod SubmissionMode
pub mod Preconditions
pub mod Runs
pub mod Gate
pub mod Recovery
pub mod Settle
pub mod Start
pub mod Humans
pub mod Verification
pub mod Report
pub mod Execute
mod Tests
