-- ===== src/Ontology.antt =====
-- The sector ontology: schemas/sectors.py and services/sector_ontology.py.
pub mod Records
pub mod Checks
pub mod Scopes
pub mod Intervals
pub mod Passing
pub mod Lookup
pub mod Table
pub mod Walking
pub mod Placement
pub mod Hierarchy
pub mod Outcomes
pub mod Validation
pub mod References
pub mod Accepted
pub mod Seed
mod Examples
