-- ===== src/Nats.antt =====
-- Retry and circuit breaker of src/oneops/adapters/nats_resilience.py.
pub mod Breaker
pub mod Call
