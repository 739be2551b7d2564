-- ===== src/Lib.antt =====
-- CareerOS (Range-Apply): the core that decides which openings a candidate applies to.
-- An opening is evaluated into a candidate opportunity; the policy and its gates
-- say whether it may be applied to; the scheduler decides, takes a slot of the day's and the week's
-- cap and makes an application attempt; the work queue hands prepared work to workers under leases;
-- the execution service checks everything again, starts a run and lets its click pass once; what comes
-- back is evidence from which the outcome is derived.
--
-- The parts, by directory:
-- - Common: shared names, Boolean tests on native numbers, lists.
-- - Core/Errors, Core/Texts, Core/Guards: app/core/errors.py, the slices and tests of texts that the
--   services use, and the shape of a guarded write.
-- - Pipeline/Models, States, Rows: app/pipeline/models.py and app/pipeline/database/models.py.
-- - Pipeline/Queue: app/pipeline/queue.py. `QueueStore` is the tenant, the tables and the audit log;
--   each method of `QueueRepository` is the function of its name, in Queue/Enqueue, Queue/Claim and
--   Queue/Outcomes, and `perform` gathers those on one item. `_park_exhausted` is `park_exhausted`.
-- - Pipeline/Policy and Pipeline/Gates: app/pipeline/policy.py and app/pipeline/gates.py.
-- - Pipeline/Repository: `OpportunityRepository.transition` of app/pipeline/repository.py.
-- - Application: app/application/models.py, database/models.py, killswitch.py and engine.py.
-- - Scheduler/Caps: app/scheduler/caps.py. `CapLedger.reserve` is `reserve_slots`, `release` is
--   `release_slots`.
-- - Scheduler/Attempts: app/scheduler/attempts.py. `AttemptRepository` is `AttemptStore`; `release` is
--   `release_attempt`, `_event` is `log_event`.
-- - Scheduler/Decisions: app/scheduler/decisions.py.
-- - Execution/SubmissionMode: app/execution/submission_mode.py.
-- - Execution/Models and Preconditions: app/execution/models.py and preconditions.py. `check` takes a
--   `Situation`, which is what `_context` loads.
-- - Execution/Runs, Gate, Recovery, Settle, Start, Humans, Verification, Report and Execute:
--   app/execution/service.py. `start` is `start_item`, in Start and Start/Entry; `verify` and `confirm`
--   stand in Verification/Confirm; `cancel` is `cancel_attempt`, `_report` is `report_outcome`; a method
--   with a leading underscore has its name without it. `Surroundings` is what an operation only reads,
--   `Offer` what the executor and the documents answer, `Executor` what the executor makes of the page.
-- - Signals: app/signals/models.py and outcomes.py.
--
-- State is passed explicitly: an operation takes the tables and returns them with its result, or
-- raises. A table is the list of its rows, and a lookup finds the first that fits. The clock, the keys
-- of new rows and the period keys are arguments. Time is a number of seconds. `company_key` and
-- `normalize_title_for_identity`, which rest on `unicodedata` and `re`, are parameters of which
-- nothing is assumed. Only the decimal digits of a number take
-- fuel: the number itself, which is enough since each digit divides it by ten.
--
-- Not modelled: the readable reasons and metadata of events, `updated_at` of the queue, the SQL of
-- pages, the forms, documents and packages of an execution, `run_queue`, the browser,
-- preparation, discovery, the classification of signals, learning, the AI gateway and the user
-- interface.
pub mod Common
pub mod Core
pub mod Pipeline
pub mod Application
pub mod Scheduler
pub mod Execution
pub mod Signals
