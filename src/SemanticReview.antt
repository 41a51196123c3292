-- ===== src/SemanticReview.antt =====
-- semantic_review/: the advisory suggestion of a language model on a pending REVIEW case.
pub mod Models
pub mod Request
pub mod Policy
pub mod Budget
pub mod Attempts
pub mod Service
