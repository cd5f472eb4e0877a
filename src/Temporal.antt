-- ===== src/Temporal.antt =====
-- schemas/temporal.py and temporal_mapping.py: point-in-time metadata and the access rule.
pub mod DateTime
pub mod Metadata
pub mod Access
pub mod Stored
pub mod Mapping
pub mod Visibility
pub mod Known
mod Readings
pub mod Sources
mod Normalized
mod Guarded
mod Examples
