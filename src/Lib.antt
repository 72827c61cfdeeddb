-- ===== src/Lib.antt =====
-- A model of the deterministic core of OneOps, a multi-tenant IT-operations assistant: the parts
-- of src/oneops that decide, without a language model, what may happen, in which order and how
-- often.
--
-- The parts and their files:
--
-- Fulfillment (src/oneops/use_cases/uc08_fulfillment). A request item is a table of tasks that
-- depend on each other. Contracts.antt has the enumerations of contracts.py and the rows of the
-- tables; in Plan.antt are the helpers of executor.py that look at the rows (`_ready_task_ids`,
-- `_poisoned_templates`, `_is_terminal`); Db.antt the SQL statements of db.py on a database whose
-- tables are lists; Executor.antt one task (`_execute_one_task`, `_invoke_adapter`); Waves.antt
-- the loop over the waves (`execute_plan` and what it calls). The integration adapter is a
-- parameter, a function of the tool's name, the tenant, the idempotency key and the payload that
-- answers after some seconds or raises; so are the ids of uuid4 and the clock of the database,
-- which may do anything. The tasks of a wave run one after the other. The bound of 64 waves is
-- that of the source, and the loop of `_poisoned_templates` has as many rounds as there are rows
-- and one more, which is proved to be enough. `none` as a result stands for a raised exception.
-- Compensation.antt has the saga compensation (`compensate_ritm`). Approval.antt is approval.py:
-- Resolve.antt the matrix and who may approve, with the two resolvers as parameters, Decide.antt
-- `decide_approval`, which reads the approval in one state of the database and runs its
-- transaction in another, with the statements in Db/Approvals.antt. The HTTP routes and the intake
-- are not modelled.
--
-- Authz (src/oneops/authz). Models.antt has the value objects and the role catalog, Abac.antt the
-- five rules of abac.py, DecisionCache.antt the key and the in-memory cache, Service.antt
-- `AuthzService.check`. The digest of a key, SHA-256 of its JSON, is a parameter; a reason is told
-- by what its text names. Service tokens and the Dragonfly cache are not modelled.
--
-- Nats (src/oneops/adapters/nats_resilience.py). Breaker.antt has the circuit breaker with its
-- rolling window, Call.antt the retry loop. Time is a number of ticks that each locked section
-- reads once; what the callable does in each attempt is a parameter. The delay between attempts
-- changes no state.
--
-- Router (src/oneops/router and src/oneops/registry/models.py). Conditions.antt has the
-- three-valued evaluation of activation conditions; for plan.py, Exclusions.antt has
-- `_apply_exclusions`, Plan.antt `_expand_with_deps`, Subqueries.antt `_topo_subqueries`,
-- Assembly.antt `assemble_plan` with what else it calls. The two recursions are on fuel: more fuel
-- than the ranks of the agents and the sub-queries is enough. A step's id is its number. The
-- stages that call models are not modelled.
--
-- Quota (src/oneops/llm/quota.py). The calls that each tenant may make in a window.
--
-- ToolRunner (src/oneops/toolrunner). ToolRunner.antt has the values, the resolver and the
-- idempotency store, ToolRunner/Run.antt `ToolRunner.run` with the capture of large outputs. What
-- importlib finds for a handler's reference, what a handler does, how long it takes and how much
-- later its end is measured are parameters.
--
-- Registry (src/oneops/registry/store.py). Registry.antt has the version envelopes,
-- Registry/Store.antt the operations of `VersionedStore` for one kind of record, on a backend that
-- is a dictionary; Moves.antt the step relation of an envelope, Status.antt the lifecycle status
-- and its summary. What pydantic answers for a stored record is a parameter. The file and Postgres
-- backends are not modelled.
--
-- Session (src/oneops/session). Backend.antt has the in-memory event log and hot window of
-- backend.py, Store.antt the `SessionEventStore` of store.py. Each operation is one step; an
-- operation that raises returns `none` with the state that it leaves.
--
-- Prelude has the shared helpers: tests on numbers and texts, lists, dictionaries. Scenarios runs
-- the components on concrete data and applies the theorems there.
mod Prelude
pub mod Fulfillment
pub mod Authz
pub mod Nats
pub mod Router
pub mod Quota
pub mod ToolRunner
pub mod Registry
pub mod Session
pub mod Scenarios
