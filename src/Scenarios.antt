-- ===== src/Scenarios.antt =====
-- Concrete runs of each component, at which the theorems apply.
mod Fixtures
pub mod FulfillmentRuns
pub mod CompensationRuns
pub mod AccessRuns
pub mod BreakerRuns
pub mod RoutingRuns
pub mod ToolRuns
pub mod SessionRuns
pub mod RegistryRuns
pub mod ApprovalRuns
pub mod PlanRuns
