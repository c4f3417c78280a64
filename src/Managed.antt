-- ===== src/Managed.antt =====
-- src/dn42ctl/db_managed.py: the stores of managed nodes, proposals, reports and revisions.
pub mod Policy
pub mod Nodes
pub mod Proposals
pub mod Reports
pub mod Revisions
