-- ===== src/Pipeline.antt =====
-- app/pipeline: the candidate's relationship with an opportunity, the policy and the work queue.
pub mod Models
pub mod States
pub mod Repository
pub mod Rows
pub mod Queue
pub mod Policy
pub mod Gates
mod Tests
