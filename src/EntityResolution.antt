-- ===== src/EntityResolution.antt =====
-- entity_resolution/: comparing customer records pairwise, deciding each pair, and clustering.
pub mod Models
pub mod Conflicts
pub mod Decisions
pub mod Severity
pub mod Components
pub mod Grouping
pub mod Clustering
