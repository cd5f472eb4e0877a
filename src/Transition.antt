-- ===== src/Transition.antt =====
-- Comparison of research states: services/research_state_transition.py and the schemas it reads.
pub mod State
pub mod Collections
pub mod Select
pub mod Compare
pub mod Changes
pub mod Outcome
pub mod Build
pub mod Validation
pub mod Order
mod Passing
mod PointInTime
mod Sorting
mod Directions
mod Risks
mod Result
mod Inputs
mod Predecessor
mod Choice
mod Validated
mod Examples
