-- ===== src/Sampling.antt =====
-- internal/sampling: the per-container memory series and the leak detectors.
pub mod Buffer
pub mod Detect
