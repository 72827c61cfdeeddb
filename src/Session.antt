-- ===== src/Session.antt =====
-- The conversation history of src/oneops/session: backend.py, the durable log and the hot window,
-- and store.py, which puts the two together.
pub mod Backend
pub mod Store
