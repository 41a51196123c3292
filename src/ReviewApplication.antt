-- ===== src/ReviewApplication.antt =====
-- review_application/: review cases and their history as they are stored, and the service that
-- resolves a stored case through the workflow.
pub mod Errors
pub mod Payload
pub mod Models
pub mod Bundle
pub mod History
pub mod Service
