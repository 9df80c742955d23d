-- ===== src/Web.antt =====
-- The web client under apps/web/src.
pub mod Session
pub mod Api
pub mod Auth
pub mod Layout
pub mod ExecutionGraph
pub mod Requests
pub mod StateBadge
pub mod RunDetail
pub mod ApprovalGate
pub mod AuditStream
pub mod AuthorizationBoundary
pub mod Workflows
pub mod ConfirmDialog
pub mod Runs
pub mod Approvals
pub mod Operations
pub mod SignIn
pub mod ProjectDetail
pub mod EvidenceProvenance
pub mod ListStates
pub mod AuditLog
pub mod Findings
pub mod Evidence
pub mod Projects
pub mod Reports
pub mod Dashboard
pub mod Agents
pub mod Settings
pub mod Routes
