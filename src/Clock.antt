-- ===== src/Clock.antt =====
-- The research clock: services/research_clock.py.
pub mod Session
mod Latest
mod Examples
