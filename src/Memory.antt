-- ===== src/Memory.antt =====
-- The retrieval of research memories: memory/retrieval.py and memory/contracts.py.
pub mod Records
pub mod Matching
pub mod Screening
pub mod Ranking
pub mod Bundle
pub mod Admission
pub mod Kept
pub mod Traces
pub mod Counts
pub mod Best
pub mod Complete
mod Examples
