-- ===== src/ReviewApi.antt =====
-- review_api/: what stands between an authenticated request and the review queue.
pub mod Tenancy
