-- ===== src/HumanReview.antt =====
-- human_review/: review cases, the workflow that resolves them, and what a decision may merge.
pub mod Models
pub mod Errors
pub mod Constraints
pub mod Linked
pub mod Guard
pub mod Merging
pub mod MatchComponents
pub mod Allowed
pub mod Proposal
pub mod Authorization
pub mod Integration
pub mod Workflow
