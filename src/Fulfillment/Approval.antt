-- ===== src/Fulfillment/Approval.antt =====
-- The approval workflow of the fulfilment use case: src/oneops/use_cases/uc08_fulfillment/approval.py.
pub mod Resolve
pub mod Decide
