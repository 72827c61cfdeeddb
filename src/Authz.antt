-- ===== src/Authz.antt =====
-- Authorization: src/oneops/authz (models.py, rbac.py, abac.py, decision_cache.py, service.py).
pub mod Models
pub mod Abac
pub mod DecisionCache
pub mod Service
