-- ===== src/Tests.antt =====
-- Runs of the model on concrete data, and the theorems at that data.
mod Values
mod Gates
mod Samples
mod Statuses
mod Workloads
mod Configs
mod Reconciles
mod Failing
mod Openings
mod Samplers
mod Histories
mod Sources
mod Startups
