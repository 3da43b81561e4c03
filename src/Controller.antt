-- ===== src/Controller.antt =====
-- internal/controller: the selection of containers, the sampler and the reconciler.
pub mod Selection
pub mod Pods
pub mod Sampler
pub mod State
pub mod Detection
pub mod Restarting
pub mod Reconcile
pub mod Invariant
pub mod Failures
