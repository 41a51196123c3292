-- ===== src/Samples.antt =====
-- Runs of the model on small inputs, and each theorem that has hypotheses at one of them.
mod Forests
mod Reviews
mod Data
mod Clusters
mod Sessions
mod Providers
mod Suggestions
mod Tenants
mod Boundaries
mod Exclusions
mod Queues
