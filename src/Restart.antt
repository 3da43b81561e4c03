-- ===== src/Restart.antt =====
-- internal/restart: the owning workload, the circuit breaker and the durable state of a policy.
pub mod Objects
pub mod Cluster
pub mod Workload
pub mod Resolve
pub mod Breaker
pub mod Store
