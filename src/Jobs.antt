-- ===== src/Jobs.antt =====
-- Durable report jobs: repositories/report_jobs.py, orchestration/job_queue.py,
-- orchestration/report_worker.py and the report task services of api/services.py.
pub mod Records
pub mod Action
pub mod Repository
pub mod Queue
pub mod Worker
pub mod Service
pub mod Events
pub mod Lifecycle
pub mod Tasks
mod Does
mod Updates
mod Refinement
mod Rows
mod Consistency
mod Execution
mod Skipping
mod TaskStates
mod TaskRuns
mod Compensation
mod Submission
mod Fifo
mod Recovery
mod TaskExamples
mod Examples
