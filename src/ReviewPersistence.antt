-- ===== src/ReviewPersistence.antt =====
-- review_persistence/: the tables of a review queue, the rows that are written to them and read from
-- them, and the repository that is bound to one queue.
pub mod Rows
pub mod Tables
pub mod Context
pub mod Repository
pub mod Registration
