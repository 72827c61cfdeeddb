-- ===== src/Router.antt =====
-- The router: src/oneops/router and the activation conditions of src/oneops/registry/models.py.
pub mod Conditions
pub mod Exclusions
pub mod Plan
pub mod Subqueries
pub mod Assembly
