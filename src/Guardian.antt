-- ===== src/Guardian.antt =====
-- src/sub2api_mcp/guardian: channel decisions, probe budget, recovery selection and recovery runs.
pub mod Contracts
pub mod StateMachine
pub mod ProbeBudget
pub mod Selection
pub mod Executor
pub mod Engine
pub mod Ledger
pub mod Policies
