-- ===== src/Rbac.antt =====
-- The access rules that the operator installs, for itself and for the two programs that it runs.
pub mod Rule
pub mod Controller
pub mod Server
pub mod Operator
pub mod Kinds
pub mod Coverage
