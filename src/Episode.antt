-- ===== src/Episode.antt =====
-- Research episodes: schemas/research_episode.py and services/research_episode.py.
pub mod Records
pub mod Building
pub mod Validation
pub mod Unions
pub mod Quality
pub mod Closure
pub mod Outcome
mod Examples
