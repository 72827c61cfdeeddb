-- ===== src/Fulfillment.antt =====
-- The fulfilment use case, src/oneops/use_cases/uc08_fulfillment.
pub mod Contracts
pub mod Plan
pub mod Db
pub mod Executor
pub mod Waves
pub mod Compensation
pub mod Approval
